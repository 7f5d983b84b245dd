-- ===== src/Web/Post/Rounds.antt =====
-- The loop of `ob_ws_process_post` (src/ob_web_server.c). Its `req_state` only decides what is
-- logged, and is left out.
use onboarding.Base.{
  ℕ, zero, suc, ◌+◌, ◌-◌, Bool, true, false, ◌||◌, Option, none, some, List, [], ◌∷◌, ℤ, pos,
  neg_errno, Bytes, c_str, strn_eq, store, ltb, ◌==◌, if◌then◌else◌, ◌>>=◌, get_elem?, set,
}
use onboarding.Web.Net.{Recv, closed, again, failed, byte}

-- NAME_BUFFER_SIZE
abbrev pub name_buffer_size : ℕ
name_buffer_size = 32

-- EINVAL
abbrev pub einval : ℕ
einval = 22

-- `post_attributes_t`. `valuebuffer` has VALUE_BUFFER_SIZE (65) bytes.
pub record Attribute : Type 0 where
  pub name : Bytes
  pub length : ℕ
  pub valuebuffer : Bytes

-- The locals of the function. `target` is the attribute that `cp` and `valuebuffer` point to.
pub record Post : Type 0 where
  pub attributes : List Attribute
  pub target : ℕ
  pub name : Bytes
  pub index : ℕ
  pub value_start : ℕ
  pub do_name : Bool

-- The array `name` is not initialised: its bytes are a parameter.
abbrev pub initial : Bytes → List Attribute → Post
initial stack ap = record {
  attributes = ap;
  target = 0;
  name = stack;
  index = 0;
  value_start = 0;
  do_name = true;
}

-- The loop over the attributes: the first one of that name.
unfoldable pub find_attribute : Bytes → List Attribute → Option ℕ
find_attribute name [] = none
find_attribute name (a ∷ ap) =
    if strn_eq name_buffer_size name a.name
    then some 0
    else (find_attribute name ap >>= λ i. some (suc i))

-- `valuebuffer[k] = c`
unfoldable pub store_value : List Attribute → ℕ → ℕ → ℕ → Option (List Attribute)
store_value ap i k c = get_elem? ap i >>= λ a.
    store a.valuebuffer k c >>= λ b. some (set ap i (record a { valuebuffer = b }))

-- `bad_name` is the return of -EINVAL, `fault` a write out of an array.
pub data Step : Type 0 where
  next : Post → Step
  bad_name fault : Step

-- At the `=` behind a name.
pub end_name : Post → Step
end_name s = elim (store s.name s.index 0) [
  | none ↦ fault
  | some name ↦ elim (find_attribute (c_str name) s.attributes) [
    | none ↦ bad_name
    | some i ↦ next (record s {
      name = name;
      index = s.index + 1;
      value_start = s.index + 1;
      target = i;
      do_name = false;
    })
  ]
]

-- Another byte of a name; too long a name is cut.
pub name_byte : Post → ℕ → Step
name_byte s c =
    if c == b'\r' || c == b'\n'
    then next s
    else (if ltb s.index name_buffer_size
        then elim (store s.name s.index c) [
          | none ↦ fault
          | some name ↦ next (record s { name = name; index = s.index + 1 })
        ]
        else next s)

-- `valuebuffer[index - value_start] = c`, and what follows it.
pub write_value : Post → ℕ → Post → Step
write_value s c t =
    if ltb s.index s.value_start
    then fault
    else elim (store_value s.attributes s.target (s.index - s.value_start) c) [
      | none ↦ fault
      | some ap ↦ next (record t { attributes = ap })
    ]

-- A byte of a value, or its end.
pub value_byte : Post → ℕ → Step
value_byte s c =
    if c == b'\r' || c == b'\n'
    then write_value s 0 (record s { do_name = true; index = 0 })
    else write_value s c (record s { index = s.index + 1 })

-- One byte of the body.
unfoldable pub post_byte : Post → ℕ → Step
unfolding end_name name_byte write_value value_byte
post_byte s c =
    if s.do_name then (if c == b'=' then end_name s else name_byte s c) else value_byte s c

-- The result, the attributes and the reports not yet used; `waiting` for a byte of the peer.
pub data Posted : Type 0 where
  returned : ℤ → List Attribute → List Recv → Posted
  waiting undefined : Posted

-- The loop, on the rounds that `content_length` leaves. A report of `again` uses up a round.
unfoldable pub post_rounds : ℕ → Post → List Recv → Posted
unfolding post_byte
post_rounds zero s rs = returned (pos 0) s.attributes rs
post_rounds (suc n) s [] = waiting
post_rounds (suc n) s (closed ∷ rs) = returned (pos 0) s.attributes rs
post_rounds (suc n) s (again ∷ rs) = post_rounds n s rs
post_rounds (suc n) s (failed e ∷ rs) = returned (neg_errno e) s.attributes rs
post_rounds (suc n) s (byte c ∷ rs) = elim (post_byte s c) [
  | next s' ↦ post_rounds n s' rs
  | bad_name ↦ returned (neg_errno einval) s.attributes rs
  | fault ↦ undefined
]

-- `ob_ws_process_post(client, ap, num_ap, wp)` with `wp->content_length`.
unfoldable pub process_post : Bytes → List Attribute → ℕ → List Recv → Posted
unfolding post_rounds
process_post stack ap content_length rs = post_rounds content_length (initial stack ap) rs
