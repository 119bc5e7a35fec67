-- ===== src/Api/Answers.antt =====
-- `to_streaming_response` of src/gateway/api/adapters.py: the headers of a proxied answer.
use code_zard.Prelude.{
  String, Option, none, some, List, [], ◌∷◌, ◌++◌, ◌≡◌, refl, arith, map, Bool-cases, inl, inr,
  if◌then◌else◌,
}
use code_zard.Prelude.Text.{same, same_refl, lower}
use code_zard.Resilience.Upstream.{Headers}

abbrev pub instance_header : String
instance_header = "x-gateway-instance"

-- `MutableHeaders`: names are kept in small letters; `append` adds a value to those that are there.
abbrev pub append_all : Headers → Headers → Headers
append_all there new = there ++ map (λ h. (lower h.0, h.1)) new

unfoldable pub without : String → Headers → Headers
without name [] = []
without name (h ∷ hs) = let rest = without name hs in if same h.0 name then rest else h ∷ rest

-- `headers[name] = value`: the first value of the name is replaced and its others go; without one, the value
-- is added at the end.
unfoldable pub set_header : String → String → Headers → Headers
unfolding without
set_header name value [] = (name, value) ∷ []
set_header name value (h ∷ hs) =
    let rest = set_header name value hs in
    if same h.0 name then (name, value) ∷ without name hs else h ∷ rest

abbrev pub with_instance : Option String → Headers → Headers
with_instance none hs = hs
with_instance (some id) hs = set_header instance_header id hs

-- The headers that `to_streaming_response` sends.
unfoldable pub streaming_headers : Headers → Option String → Headers
unfolding set_header lower
streaming_headers upstream instance_id =
    with_instance instance_id (append_all (("x-accel-buffering", "no") ∷ []) upstream)

-- The values of a name.
unfoldable pub values_of : String → Headers → List String
values_of name [] = []
values_of name (h ∷ hs) = let rest = values_of name hs in if same h.0 name then h.1 ∷ rest else rest

values_of-without : (name : String) (hs : Headers) → values_of name (without name hs) ≡ []
unfolding values_of without
values_of-without name [] = refl
values_of-without name (h ∷ hs) = ground (arith, values_of-without name hs)

values_of-set_header :
    (name value : String) (hs : Headers) → values_of name (set_header name value hs) ≡ value ∷ []
unfolding values_of set_header
values_of-set_header name value [] = rw (same_refl name) refl
values_of-set_header name value (h ∷ hs) = elim (Bool-cases (same h.0 name)) [
  | inl named ↦ rw (named, values_of, same_refl name, values_of-without name hs) refl
  | inr other ↦ rw (other, values_of, other) (values_of-set_header name value hs)
]

-- Whatever a service sends, a proxied answer that an instance gave names that instance and no other.
pub instance_is_named :
    (upstream : Headers) (id : String)
    → values_of instance_header (streaming_headers upstream (some id)) ≡ id ∷ []
unfolding streaming_headers
instance_is_named upstream id =
    values_of-set_header instance_header id (append_all (("x-accel-buffering", "no") ∷ []) upstream)
