-- ===== src/Proxy/Relay/Lines.antt =====
-- The steps of a relay: a line that is read, and bytes that are written.
use mathlib.Core.List.{append-nil, append_assoc}
use migux.Common.{
  ℕ, ◌+◌, ◌-◌, ◌≤◌, ◌≡◌, refl, sym, ap, ◌∙◌, false, [], ◌∷◌, ◌++◌, length, take, drop,
  length-append, arith, true,
}
use migux.Text.{Str, contains_char}
use migux.Stream.{Sink, write_all, done, Run, Failure, find_window, crlf}
use migux.Stream.Window.{find_window-crlf, take-line, drop-line}
use migux.Stream.Incoming.{incoming}
use migux.Stream.Lines.{IsLine, IsLine_lem}
use migux.Proxy.Relay.{Relay, read_line, forward, failure_of}

-- All of the bytes have been written.
abbrev pub after_write : Sink → Str → Sink
after_write s bytes = record { sent = s.sent ++ bytes; room = s.room - length bytes }

pub after_write-append :
    (s : Sink) (a b : Str) → after_write (after_write s a) b ≡ after_write s (a ++ b)
after_write-append s a b = λ i. record { sent = append_assoc s.sent a b i; room = rooms i }
  where
    rooms : s.room - length a - length b ≡ s.room - length (a ++ b)
    rooms = omega (arith, length-append a b)

pub after_write_nil : (s : Sink) → s ≡ after_write s []
after_write_nil s = λ i. record { sent = sym (append-nil s.sent) i; room = rooms i }
  where
    rooms : s.room ≡ s.room - 0
    rooms = omega arith

pub write_all_lem :
    (bytes : Str) (s : Sink)
    → length bytes ≤ s.room
    → write_all bytes s ≡ (after_write s bytes, true)
unfolding write_all
write_all_lem [] s h = ap (λ t. (t, true)) (after_write_nil s)
write_all_lem (b ∷ bs) s h = ground arith

pub forward_lem :
    (bytes : Str) (r : Relay)
    → length bytes ≤ r.target.room
    → forward bytes r ≡ (record r { target = after_write r.target bytes }, done tt)
unfolding forward
forward_lem bytes r h = rw (write_all_lem bytes r.target h) refl

-- What a relay needs of the function that reads a line: the line with its CRLF is taken, and
-- nothing is written.
abbrev pub ReadsLines : Run Relay Failure Str → Type 0
ReadsLines line =
    (r : Relay) (l t : Str)
    → contains_char 13 l ≡ false
    → incoming r.source ≡ l ++ crlf ++ t
    → ((line r).1 ≡ done (l ++ crlf))
      × (incoming (line r).0.source ≡ t)
      × ((line r).0.target ≡ r.target)

-- And of the function that relays a number of bytes: these are taken and written.
abbrev pub RelaysExactly : (ℕ → Run Relay Failure (Unit {0})) → Type 0
RelaysExactly exact =
    (r : Relay) (n : ℕ) (s t : Str)
    → length s ≡ n
    → n ≤ r.target.room
    → incoming r.source ≡ s ++ t
    → ((exact n r).1 ≡ done tt)
      × (incoming (exact n r).0.source ≡ t)
      × ((exact n r).0.target ≡ after_write r.target s)

pub read_line-ReadsLines : ReadsLines read_line
unfolding read_line IsLine
read_line-ReadsLines r l t h e =
    let (line, rest) =
      IsLine_lem failure_of r.source.events r.source.buf (length l)
        (ap (find_window crlf) e ∙ find_window-crlf l t h) in
    (
      line ∙ ap (λ s. done (take (length l + 2) s)) e ∙ ap done (take-line l t),
      rest ∙ ap (drop (length l + 2)) e ∙ drop-line l t,
      refl,
    )
