-- ===== src/Telnet.antt =====
-- hw13/src/main.c: a client that sends a command to a telnet server and prints the reply. What the
-- system answers is an argument: `recv i n` is the answer to the call of `recv` number `i` with room
-- for `n` bytes, none where it fails and an empty one where the peer has closed.
pub mod Reply
pub mod Checks
use otus_c.Prelude.{
  ℕ, zero, suc, ◌+◌, ◌-◌, ◌==◌, Bool, true, false, not, ◌&&◌, List, [], ◌∷◌, ◌++◌, Option, none,
  some, if◌then◌else◌, ltb, leb, length, take, replicate,
}
use otus_c.Prelude.Words.{sub64}
use otus_c.Prelude.Bytes.{CString}

abbrev pub buf_size : ℕ
buf_size = 2048

-- The answers of the system: whether `socket` and `connect` succeed and
-- `inet_pton` is not negative, the addresses that
-- `gethostbyname` gives with their `inet_ntoa`, and whether `send` takes the bytes of the buffer.
pub record Network : Type 0 where
  pub socket : Bool
  pub host : Option (List (Option CString))
  pub inet_pton : CString → Bool
  pub connect : Bool
  pub recv : ℕ → ℕ → Option (List ℕ)
  pub send : List ℕ → Bool

pub data Ending : Type 0 where
  failed : Ending
  undefined : Ending
  running : Ending  -- no round was left
  printed : CString → Ending

-- The loop of `ip_by_hostname`
abbrev pub first_address : List (Option CString) → Option CString
first_address [] = none
first_address (none ∷ addr_list) = first_address addr_list
first_address (some h ∷ addr_list) = some h

abbrev pub ip_by_hostname : Option (List (Option CString)) → Option CString
ip_by_hostname none = none
ip_by_hostname (some addr_list) = first_address addr_list

-- The condition of the first loop on what was received: with one byte it reads before the buffer.
abbrev pub goes_on : List ℕ → Option Bool
goes_on [] = some false
goes_on (x ∷ []) = none
goes_on (x ∷ y ∷ []) = some (not (x == b'\n') && not (y == b'.'))
goes_on (x ∷ y ∷ z ∷ bytes) = goes_on (y ∷ z ∷ bytes)

-- After the test: the rest of the loop, or what follows it.
abbrev pub decide : Option Bool → Ending → Ending → Ending
decide none rest after = undefined
decide (some true) rest after = rest
decide (some false) rest after = after

-- The first loop from the call `i` of `recv`, and what follows it, which gets the next call's number.
pub wait_prompt : ℕ → (ℕ → ℕ → Option (List ℕ)) → ℕ → (ℕ → Ending) → Ending
wait_prompt zero recv i after = running
wait_prompt (suc rounds) recv i after =
    let rest = wait_prompt rounds recv (i + 1) after in
    elim (recv i (buf_size - 1)) [
      | none ↦ failed
      | some bytes ↦ decide (goes_on bytes) rest (after (i + 1))
    ]

-- `snprintf` of the command into the zeroed buffer
abbrev pub message : CString → CString → List ℕ
message font text =
    let written = take (buf_size - 1) (
      (b'f' ∷ b'i' ∷ b'g' ∷ b'l' ∷ b'e' ∷ b't' ∷ b' ' ∷ b'/' ∷ [])
      ++ font
      ++ (b' ' ∷ text)
      ++ (b'\r' ∷ b'\n' ∷ [])) in
    written ++ replicate (buf_size - length written) 0

-- The second loop, with the bytes before `len`; `none` is that no round was left.
pub read_reply : ℕ → (ℕ → ℕ → Option (List ℕ)) → ℕ → List ℕ → Option (List ℕ)
read_reply zero recv i text = none
read_reply (suc rounds) recv i text = elim (recv i (sub64 buf_size (length text))) [
  | none ↦ some text
  | some [] ↦ some text
  | some (x ∷ bytes) ↦ read_reply rounds recv (i + 1) (text ++ (x ∷ bytes))
]

abbrev pub c_string : List ℕ → CString
c_string [] = []
c_string (x ∷ bytes) = if x == 0 then [] else x ∷ c_string bytes

-- `buff[len] = '\0'` and the output
abbrev pub print_reply : Option (List ℕ) → Ending
print_reply none = running
print_reply (some text) = if ltb (length text) buf_size then printed (c_string text) else undefined

abbrev pub talk : ℕ → Network → CString → CString → Ending
talk rounds s font text = wait_prompt rounds s.recv 0 (λ i.
    if s.send (message font text) then print_reply (read_reply rounds s.recv i []) else failed)

abbrev pub connect_to : ℕ → Network → CString → CString → Option CString → Ending
connect_to rounds s font text none = failed
connect_to rounds s font text (some addr) =
    if not (s.inet_pton addr)
    then failed
    else if not s.connect
    then failed
    else talk rounds s font text

-- `main` on the arguments behind the program's name
pub main : ℕ → Network → List CString → Ending
main rounds s (font ∷ text ∷ []) =
    if not s.socket then failed else connect_to rounds s font text (ip_by_hostname s.host)
main rounds s args = failed
