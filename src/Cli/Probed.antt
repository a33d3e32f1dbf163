-- ===== src/Cli/Probed.antt =====
-- From the health that a probe finds in the container, through what is printed there, to the health on the host.
use bitheim.Prelude.{String, false, Option, none, some, ◌≡◌, refl, ◌∙◌, sym, ap, string_eq}
use bitheim.Prelude.Int.{ℤ, pos, int_eq}
use bitheim.Prelude.Text.{strip, is_empty}
use bitheim.Prelude.Lines.{lower}
use bitheim.Errors.{ok}
use bitheim.Value.{Value, obj, str, int, find, as_text, int_or_bool, value_or_null}
use bitheim.Domain.Node.{
  State, stopped, starting, healthy, unhealthy, incompatible, unknown, state_of_text, Health,
  Status,
}
use bitheim.Bitcoin.Probe.Laws.{IsSound}
use bitheim.Compose.Docker.{Completed, completed, Loaded}
use bitheim.Compose.Health.{
  shown_details, enforce, check_members, check_health, check_probe, check_loaded,
  parse_delegated_health, probe_result,
}
use bitheim.Compose.Delegation.RoundTrip.{Printed}
use bitheim.Cli.Output.{status_object}

text_back : (o : Option String) → as_text (value_or_null str o) ≡ o
text_back none = refl
text_back (some s) = refl

int_back : (o : Option ℤ) → int_or_bool (value_or_null int o) ≡ o
int_back none = refl
int_back (some n) = refl

details_back :
    (show : Value → String) (o : Option String) → shown_details show (value_or_null str o) ≡ o
details_back show none = refl
details_back show (some s) = refl

ruleset back_rules = (text_back, int_back, details_back)

-- a health without a protocol version
abbrev plain : State → Option String → Option ℤ → Option ℤ → Option ℤ → Option String → Health
plain state chain version blocks headers details = record {
  state = state;
  chain = chain;
  version = version;
  protocol_version = none;
  blocks = blocks;
  headers = headers;
  details = details;
}

module _ (show : Value → String) where
  plain_back :
      (node_id : String) (s state : State) (c : Option String) (v b h : Option ℤ)
      (d t : Option String)
      → (state ≡ healthy → (c ≡ some "regtest") × (v ≡ some (pos 310100)))
      → check_probe show (
          obj (
            status_object (record {
              node_id = node_id;
              state = s;
              health = plain state c v b h d;
              details = t;
            })))
        ≡ plain state c v b h d
  unfolding check_probe check_health check_members enforce status_object find state_of_text lower
  plain_back id s stopped c v b h d t p = simp back_rules
  plain_back id s starting c v b h d t p = simp back_rules
  plain_back id s healthy c v b h d t p = rw ((p refl).0, (p refl).1) (simp back_rules)
  plain_back id s unhealthy c v b h d t p = simp back_rules
  plain_back id s incompatible c v b h d t p = simp back_rules
  plain_back id s unknown c v b h d t p = simp back_rules

  probed_back :
      (s : Status) → IsSound s.health → check_probe show (obj (status_object s)) ≡ s.health
  unfolding status_object
  probed_back s (no_protocol, sound) =
      plain_back s.node_id s.state s.health.state s.health.chain s.health.version s.health.blocks
        s.health.headers s.health.details s.details sound
      ∙ sym (ap (λ (n : Option ℤ). record s.health { protocol_version = n }) no_protocol)

  module _ (loads : String → Loaded) where
    -- a host reads the health of the status that has been printed
    pub probe_result-status_object :
        (s : Status) (c : Completed)
        → IsSound s.health
        → Printed loads c (obj (status_object s))
        → is_empty (strip c.stdout) ≡ false
        → probe_result show loads (completed c) ≡ ok s.health
    unfolding probe_result parse_delegated_health check_loaded
    probe_result-status_object s c sound p written =
        rw (p.ended, written, p.read) (ap ok (probed_back s sound))
