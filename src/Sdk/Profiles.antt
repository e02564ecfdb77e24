-- ===== src/Sdk/Profiles.antt =====
-- What the SDK's validator of third-party profiles accepts.
use qsol_fed.Base.{◌≡◌, refl, ap, ◌∙◌, true, false, not, some}
use mathlib.Core.Path.{subst}
use qsol_fed.Base.Result.{
  ok, err, Returns, Returns-bind, Returns-guard, Returns-ok, third_party_profile_invalid,
}
use qsol_fed.Base.Text.{codes}
use qsol_fed.Json.{Value, Fields, null, bool, int, str, arr, dict, pairs, other, lookup}
use qsol_fed.Sdk.Checks.{item-lookup, is_literal-eq}
use qsol_fed.Sdk.Fields.{is_false, as_dict, require}
use qsol_fed.Sdk.Documents.{validate_third_party_profile}

-- What an accepted third-party profile says.
pub record Independent (fs : Fields) : Type 0 where
  pub local : lookup (codes "governance_model") fs ≡ some (str (codes "local"))
  pub not_adopted : lookup (codes "qsol_governance_adopted") fs ≡ some (bool false)
  pub no_nexus : lookup (codes "nexus_required") fs ≡ some (bool false)
  pub no_council : lookup (codes "council_required") fs ≡ some (bool false)

is_false-eq : (v : Value) → not (is_false v) ≡ false → v ≡ bool false
unfolding is_false
is_false-eq (bool false) h = refl
is_false-eq (bool true) h = cc
is_false-eq null h = cc
is_false-eq (str s) h = cc
is_false-eq (int n) h = cc
is_false-eq (arr xs) h = cc
is_false-eq (dict fs) h = cc
is_false-eq (pairs fs) h = cc
is_false-eq other h = cc

profile-Returns :
    (fs : Fields) → Returns (λ _. Independent fs) (validate_third_party_profile (dict fs))
unfolding validate_third_party_profile as_dict
profile-Returns fs = Returns-bind _ λ gs same. Returns-guard _ _ λ _. Returns-bind _ λ schema _.
    Returns-guard _ _ λ _. Returns-bind _ λ model e₁. Returns-guard _ _ λ h₁. Returns-bind _ λ _ _.
      Returns-guard _ _ λ _. Returns-bind _ λ adopted e₂. Returns-guard _ _ λ h₂.
        Returns-bind _ λ nexus e₃. Returns-guard _ _ λ h₃. Returns-bind _ λ council e₄.
          Returns-guard _ _ λ h₄. Returns-ok tt (
            subst Independent (the_same gs same) (record {
              local = item-lookup _ gs model e₁ ∙ ap some (is_literal-eq _ model h₁);
              not_adopted = item-lookup _ gs adopted e₂ ∙ ap some (is_false-eq adopted h₂);
              no_nexus = item-lookup _ gs nexus e₃ ∙ ap some (is_false-eq nexus h₃);
              no_council = item-lookup _ gs council e₄ ∙ ap some (is_false-eq council h₄);
            }))
  where
    the_same : (gs : Fields) → require (some fs) (err third_party_profile_invalid) ≡ ok gs → gs ≡ fs
    the_same gs e = cc

-- An accepted third-party profile is governed locally, has not adopted QSOL governance, and requires
-- neither Nexus nor the Council.
pub validate_third_party_profile-Independent :
    (fs : Fields) → validate_third_party_profile (dict fs) ≡ ok tt → Independent fs
validate_third_party_profile-Independent fs h = (profile-Returns fs).at tt h
