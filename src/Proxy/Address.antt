-- ===== src/Proxy/Address.antt =====
-- Where an `OutboundRequest` of src/gateway/domain/models.py goes to.
use Prim.Native.Char.{code}
use Prim.Native.String.{[] as empty_text, ◌∷◌ as ◌then_char◌}
use code_zard.Prelude.{◌==◌, String, Option, none, some, List, [], ◌∷◌, if◌then◌else◌}
use code_zard.Prelude.Text.{concat, rstrip}
use code_zard.Resilience.Upstream.{ServiceInstance}
use code_zard.Proxy.{OutboundRequest}

-- `path.lstrip("/")`
unfoldable strip_slashes : String → String
strip_slashes empty_text = ""
strip_slashes (c then_char s) =
    let rest = strip_slashes s in if code c == b'/' then rest else (c then_char s)

abbrev only : List ServiceInstance → Option ServiceInstance
only [] = none
only (i ∷ []) = some i
only (i ∷ j ∷ is) = none

abbrev chosen_or : Option ServiceInstance → List ServiceInstance → Option ServiceInstance
chosen_or (some i) instances = some i
chosen_or none instances = only instances

-- `_resolved_instance`; `none` is the `RuntimeError`.
abbrev pub resolved_instance : OutboundRequest → Option ServiceInstance
resolved_instance r = chosen_or r.instance_of r.service.instances

-- `url`, with `quote` for the percent-encoding.
unfoldable pub url : (String → String) → OutboundRequest → Option String
unfolding strip_slashes rstrip
url quote r = elim (resolved_instance r) [
  | none ↦ none
  | some i ↦ some (concat (rstrip b'/' i.base_url) (concat "/" (quote (strip_slashes r.path))))
]
