-- ===== src/Service/Guards/Laws.antt =====
-- What passes the checks.
use Prim.Native.Char.{Char, code}
use Prim.Native.String.{[], ◌∷◌}
use bitheim.Prelude.{
  ℕ, String, true, false, some, ◌&&◌, ◌≡◌, ◌↔◌, ◌≤◌, ◌<◌, ◌*◌, false, leb, refl, arith, ◌==◌,
  nat_eq, if◌then◌else◌, Bool-cases, inl, inr,
}
use bitheim.Prelude.Int.{pos, negsuc}
use bitheim.Prelude.Text.{is_alphanumeric, is_space, lstrip, rstrip, strip, is_empty, all_chars}
use bitheim.Errors.{ok, err, rpc_error, overflow_error, Exc}
use bitheim.Value.{Value, str, int, float, finite, second, as_number, is_too_large, float_limit}
use bitheim.Service.Guards.{
  is_id_char, id_rest, node_id_match, validate_service_node_id, command_deadline, max_deadline,
}

-- a text of characters that may stand in an identifier, the first of them alphanumeric
abbrev pub IsNodeId : String → Type 0
IsNodeId [] = ⊥
IsNodeId (c ∷ s) = (is_alphanumeric (code c) ≡ true) × (all_chars is_id_char s ≡ true)

-- the last character is no white space
abbrev TrimmedEnd : String → Type 0
TrimmedEnd [] = Unit
TrimmedEnd (c ∷ []) = is_space (code c) ≡ false
TrimmedEnd (c ∷ d ∷ s) = TrimmedEnd (d ∷ s)

id_char_not_space : (c : ℕ) → is_id_char c ≡ true → is_space c ≡ false
unfolding is_space
id_char_not_space c h = ground arith

newline_space : (c : ℕ) → (c == 0x0a) ≡ true → is_space c ≡ true
unfolding is_space
newline_space c h = ground arith

keep :
    (c : Char) (r : String)
    → TrimmedEnd r
    → TrimmedEnd (if is_space (code c) && is_empty r then [] else c ∷ r)
keep c [] h = elim (Bool-cases (is_space (code c))) [ inl e ↦ rw e tt | inr e ↦ rw e e ]
keep c (d ∷ r) h = elim (Bool-cases (is_space (code c))) [ inl e ↦ rw e h | inr e ↦ rw e h ]

rstrip-TrimmedEnd : (s : String) → TrimmedEnd (rstrip s)
unfolding rstrip
rstrip-TrimmedEnd [] = tt
rstrip-TrimmedEnd (c ∷ s) = keep c (rstrip s) (rstrip-TrimmedEnd s)

id_rest-all : (s : String) → TrimmedEnd s → id_rest s ≡ true → all_chars is_id_char s ≡ true
id_rest-all [] t h = refl
id_rest-all (c ∷ []) t h = ground (arith, newline_space (code c))
id_rest-all (c ∷ d ∷ s) t h = ground (arith, id_rest-all (d ∷ s) t)

trimmed_tail : (c : Char) (s : String) → TrimmedEnd (c ∷ s) → TrimmedEnd s
trimmed_tail c [] t = tt
trimmed_tail c (d ∷ s) t = t

match-IsNodeId : (s : String) → TrimmedEnd s → node_id_match s ≡ true → IsNodeId s
unfolding node_id_match
match-IsNodeId [] t h = cc
match-IsNodeId (c ∷ s) t h = ground (arith, id_rest-all s (trimmed_tail c s t))

all-id_rest : (s : String) → all_chars is_id_char s ≡ true → id_rest s ≡ true
all-id_rest [] h = refl
all-id_rest (c ∷ s) h = ground (arith, all-id_rest s)

rstrip_id : (s : String) → all_chars is_id_char s ≡ true → rstrip s ≡ s
unfolding rstrip
rstrip_id [] h = refl
rstrip_id (c ∷ s) h = ground (arith, rstrip_id s, id_char_not_space (code c))

strip_id : (s : String) → IsNodeId s → strip s ≡ s
unfolding strip lstrip
strip_id [] h = absurd h
strip_id (c ∷ s) (a, h) = ground (arith, rstrip_id (c ∷ s), id_char_not_space (code c))

-- An identifier that is accepted begins with a letter or a digit and has only letters, digits, dashes and underscores.
pub validate_service_node_id-IsNodeId :
    (v : Value) (s : String) → validate_service_node_id v ≡ ok s → IsNodeId s
unfolding validate_service_node_id strip
validate_service_node_id-IsNodeId (str t) s h =
    ground (arith, match-IsNodeId (rstrip (lstrip t)) (rstrip-TrimmedEnd (lstrip t)))
validate_service_node_id-IsNodeId _ s h = ground arith

match_of_id : (s : String) → IsNodeId s → node_id_match s ≡ true
unfolding node_id_match
match_of_id [] h = absurd h
match_of_id (c ∷ s) h = ground (arith, all-id_rest s)

id_not_empty : (s : String) → IsNodeId s → is_empty s ≡ false
id_not_empty [] h = absurd h
id_not_empty (c ∷ s) h = refl

-- An identifier is accepted as it is: checking a second time changes nothing.
pub validate_service_node_id_id :
    (s : String) → IsNodeId s → validate_service_node_id (str s) ≡ ok s
unfolding validate_service_node_id
validate_service_node_id_id s h = rw (strip_id s h, id_not_empty s h, match_of_id s h)

small_int : (k : ℕ) → second * k ≤ max_deadline → leb float_limit k ≡ false
unfolding float_limit
small_int k h = ground arith

-- a number of at most 60 seconds is no int that `float` refuses
fits_deadline :
    (v : Value) (n : ℕ)
    → as_number v ≡ some (finite (pos n))
    → n ≤ max_deadline
    → is_too_large v ≡ false
fits_deadline (int (pos k)) n h small = small_int k (ground (arith, h, small))
fits_deadline (int (negsuc k)) n h small = absurd (cc h)
fits_deadline (float x) n h small = refl
fits_deadline v n h small = absurd (cc h)

-- The deadline check gives a number of microseconds exactly when the value is an int or a float of that duration, more
-- than 0 and at most 60 seconds.
pub command_deadline_iff :
    (v : Value) (n : ℕ)
    → (command_deadline v ≡ ok n)
      ↔ ((as_number v ≡ some (finite (pos n))) × (0 < n) × (n ≤ max_deadline))
unfolding command_deadline
command_deadline_iff v n =
    (λ h. ground arith, λ (e, p, q). ground (arith, e, p, q, fits_deadline v n e q))

pub command_deadline_errors :
    (v : Value) (e : Exc) → is_too_large v ≡ false → command_deadline v ≡ err e → e ≡ rpc_error
unfolding command_deadline
command_deadline_errors v e fits h = ground arith

-- the `OverflowError` of an int that `float` refuses
pub command_deadline_too_large :
    (v : Value) → is_too_large v ≡ true → command_deadline v ≡ err overflow_error
unfolding command_deadline
command_deadline_too_large v h = ground arith
