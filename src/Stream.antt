-- ===== src/Stream.antt =====
-- What the code reads from and writes to sockets: crates/migux_core/src/worker/timeouts.rs and
-- request.rs, crates/migux_proxy/src/proxy/mod.rs and response.rs. A socket is the list of what its
-- reads meet, one event to a read; after the last event the peer has closed it. A byte is a number.
pub mod Window
pub mod Incoming
pub mod Lines
pub mod Steps
pub mod Chunks
use migux.Common.{
  ℕ, zero, suc, ◌+◌, ◌-◌, Bool, true, false, List, [], ◌∷◌, ◌++◌, Option, none, some, leb,
  if◌then◌else◌, length, take, drop,
}
use migux.Text.{Str, starts_with, lit}

pub data Event : Type 0 where
  -- At least one byte.
  arrives : ℕ → Str → Event
  times_out : Event
  fails : Event

-- The socket, and the bytes that have been read from it and not used yet.
pub record Conn : Type 0 where
  pub buf : Str
  pub events : List Event

pub data Result (E A : Type 0) : Type 0 where
  done : A → Result E A
  err : E → Result E A

pub data ReadOutcome : Type 0 where
  read : ℕ → ReadOutcome
  timeout : ReadOutcome

-- One read. A socket without further events is closed, and gives 0 bytes.
unfoldable pub read_more : Option Event → Str → Option (ReadOutcome × Str)
read_more none buf = some (read 0, buf)
read_more (some (arrives b bs)) buf = some (read (suc (length bs)), buf ++ (b ∷ bs))
read_more (some times_out) buf = some (timeout, buf)
read_more (some fails) buf = none

-- How the bytes that come in end.
pub data Ending : Type 0 where
  closed : Ending
  timed_out : Ending
  failed : Ending

-- What the loops do with the outcome of a read: the buffer, if bytes have come.
unfoldable pub bytes_or : {E : Type 0} → (Ending → E) → Option (ReadOutcome × Str) → Result E Str
bytes_or error none = err (error Ending.failed)
bytes_or error (some (timeout, buf)) = err (error Ending.timed_out)
bytes_or error (some (read zero, buf)) = err (error Ending.closed)
bytes_or error (some (read (suc n), buf)) = done buf

-- A function on a state: the state that it leaves, also where it fails, and what it returns.
abbrev pub Run : Type 0 → Type 0 → Type 0 → Type 0
Run S E A = S → S × Result E A

abbrev pub pure : {S E A : Type 0} → A → Run S E A
pure a s = (s, done a)

abbrev pub fail : {S E A : Type 0} → E → Run S E A
fail e s = (s, err e)

-- `?`: the first error ends the function.
infixl 5 ◌>>=◌ ◌>>◌
abbrev pub ◌>>=◌ : {S E A B : Type 0} → Run S E A → (A → Run S E B) → Run S E B
◌>>=◌ m f s = let (s', r) = m s in elim r [ done a ↦ f a s' | err e ↦ (s', err e) ]

abbrev pub ◌>>◌ : {S E A B : Type 0} → Run S E A → Run S E B → Run S E B
m >> k = m >>= λ _. k

-- The position of the first window of the buffer that is the pattern.
unfoldable pub find_window : Str → Str → Option ℕ
unfolding starts_with
find_window pattern [] = none
find_window pattern (b ∷ bs) =
    let rest = find_window pattern bs in
    if starts_with (b ∷ bs) pattern
    then some 0
    else elim rest [ none ↦ none | some i ↦ some (suc i) ]

abbrev pub crlf : Str
crlf = 13 ∷ 10 ∷ []

abbrev pub blank_line : Str
blank_line = 13 ∷ 10 ∷ 13 ∷ 10 ∷ []

-- What a peer accepts: the bytes that have been written, and the number of bytes it still takes. A
-- write that it does not take whole fails, and the bytes up to there have gone out.
pub record Sink : Type 0 where
  pub sent : Str
  pub room : ℕ

unfoldable pub write_all : Str → Sink → Sink × Bool
write_all [] s = (s, true)
write_all (b ∷ bs) s =
    let bytes = b ∷ bs in
    if leb (length bytes) s.room
    then (record { sent = s.sent ++ bytes; room = s.room - length bytes }, true)
    else (record { sent = s.sent ++ take s.room bytes; room = 0 }, false)

-- The reasons for which the code gives up, in place of the texts of its errors. `out_of_fuel` is the
-- model's own.
pub data Failure : Type 0 where
  timed_out : Failure
  closed : Failure
  io : Failure
  write_failed : Failure
  too_large : Failure
  invalid : Failure
  missing : Failure
  out_of_fuel : Failure

-- A client: what is read from it, and what is written to it.
pub record Client : Type 0 where
  pub conn : Conn
  pub sink : Sink

-- What a write leaves a function with.
abbrev pub written : {S : Type 0} → S → Bool → S × Result Failure (Unit {0})
written s true = (s, done tt)
written s false = (s, err write_failed)

unfoldable pub send : Str → Run Client Failure (Unit {0})
unfolding write_all
send bytes c =
    let (sink, success) = write_all bytes c.sink in written (record c { sink = sink }) success
