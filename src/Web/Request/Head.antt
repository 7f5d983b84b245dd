-- ===== src/Web/Request/Head.antt =====
-- Receiving the head of a request: the loop of `client_conn_handler` in src/ob_web_server.c.
use onboarding.Base.{
  ℕ, Bool, true, false, ◌&&◌, Option, none, some, List, [], ◌∷◌, ◌==◌, if◌then◌else◌, ◌>>=◌,
}
use onboarding.Web.Net.{Recv, closed, again, failed, byte}
use onboarding.Web.Request.Name
use onboarding.Web.Request.Name.{Name, name_byte}
use onboarding.Web.Request.Length
use onboarding.Web.Request.Length.{Length, length_byte}

pub record Head : Type 0 where
  pub name : Name
  pub length : Length
  pub req_state : ℕ

abbrev pub initial : Head
initial = record { name = Name.initial; length = Length.initial; req_state = 0 }

-- `req_state == 3 && c == '\n'`, the end of the head
abbrev pub is_end : ℕ → ℕ → Bool
is_end r c = r == 3 && c == b'\n'

-- The other branches of the ladder on `req_state`.
abbrev pub next_state : ℕ → ℕ → ℕ
next_state r c =
    if r == 0 && c == b'\r'
    then 1
    else if r == 1 && c == b'\n'
    then 2
    else if r == 2 && c == b'\r'
    then 3
    else 0

-- One byte. (At the end of the head `i` is not counted up in C; it is not read again.)
unfoldable pub head_byte : Head → ℕ → Option Head
head_byte h c = name_byte h.name c >>= λ n. length_byte h.length c >>= λ l.
    some (record { name = n; length = l; req_state = next_state h.req_state c })

-- Why the loop was left.
pub data Why : Type 0 where
  end_of_head peer_closed : Why
  socket_error : ℕ → Why

-- The loop over the reports of `zsock_recv`. With none left it waits for the next one.
pub data Received : Type 0 where
  left : Why → Head → List Recv → Received
  waiting : Head → Received
  fault : Received

unfoldable pub read_head : Head → List Recv → Received
unfolding head_byte
read_head h [] = waiting h
read_head h (closed ∷ rs) = left peer_closed h rs
read_head h (again ∷ rs) = read_head h rs
read_head h (failed e ∷ rs) = left (socket_error e) h rs
read_head h (byte c ∷ rs) = elim (head_byte h c) [
  | none ↦ fault
  | some h' ↦ elim (is_end h.req_state c) [
    | true ↦ left end_of_head h' rs
    | false ↦ read_head h' rs
  ]
]
