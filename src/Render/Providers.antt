-- ===== src/Render/Providers.antt =====
-- The INI lines of a caller's rule providers, from `normalizeCustomRuleProviders` by
-- `customIniRules` of worker/solver.mjs to `renderRule` of worker/render.mjs.
use rules.Base.{
  ℕ, false, Option, List, [], ◌∷◌, ◌++◌, Text, codes, text_eq, join, flat, any, All, split,
  split-join, HasNo, HasNo-join, HasNo-append, any_weaken, ok, >>=-eq-ok, ok-injective, map_result,
  ◌==◌, ◌≡◌, refl, subst, sym, arith,
}
use mathlib.Core.List.{append-nil}
use rules.Value.{Value, decimal}
use rules.Plan.{Rule}
use rules.Catalog.{Data}
use rules.Spec.Providers.{
  Provider, Url, Behavior, classical, domain, Target, is_unsafe_in_url,
  normalize_custom_rule_providers,
}
use rules.Spec.Providers.Laws.{IsSafe, normalize_custom_rule_providers-IsSafe}
use rules.Solve.CustomRules.{custom_rule_target, remote_rule, provider_kind, provider_rule}
use rules.Render.{shown, shown_number, remote_line, render_rule}
use rules.Render.Lines.Rules.{OneLine, decimal-HasNo}

-- `clash-domain:` or `clash-classic:`
abbrev pub source_prefix : Behavior → Text
source_prefix domain = codes "clash-domain:"
source_prefix classical = codes "clash-classic:"

-- The line of a provider with this target: it has three fields at its commas, and no line break.
pub record IsProviderLine (interval : ℕ) (target : Text) (q : Provider) (line : Text) : Type 0 where
  pub fields :
      split 44 line
      ≡ (codes "ruleset=" ++ target) ∷ (source_prefix q.behavior ++ q.url) ∷ decimal interval ∷ []
  pub one_line : OneLine line

-- The names of the groups for custom rules have no comma and no line break.
abbrev pub HasPlainTargets : Data → Type 0
HasPlainTargets d =
    (t : Target) (name : Text) → custom_rule_target d t ≡ ok name → HasNo 44 name × OneLine name

-- A rule that is printed as the line of the provider.
abbrev pub PrintsProvider : ℕ → Rule → Provider → Type 0
PrintsProvider interval r q =
    (line : Text) × (render_rule r ≡ ok line) × IsProviderLine interval r.target q line

unsafe_free : (url : Text) → any is_unsafe_in_url url ≡ false → HasNo 44 url × OneLine url
unfolding is_unsafe_in_url
unsafe_free url h = (
  any_weaken is_unsafe_in_url (λ c. c == 44) url (λ c e. ground arith) h,
  any_weaken is_unsafe_in_url (λ c. c == 10) url (λ c e. ground arith) h,
)

remote_line-join :
    (interval : ℕ) (target : Text) (q : Provider)
    → remote_line
        (codes "," ++ source_prefix q.behavior)
        (remote_rule (provider_kind q.behavior) target q.url interval)
      ≡ join (codes ",") (
          (codes "ruleset=" ++ target)
          ∷ (source_prefix q.behavior ++ q.url)
          ∷ decimal interval
          ∷ [])
unfolding join flat shown shown_number
remote_line-join interval target q =
    elim q.behavior
      as (λ b.
        remote_line (codes "," ++ source_prefix b)
          (remote_rule (provider_kind b) target q.url interval)
        ≡ join (codes ",")
            ((codes "ruleset=" ++ target) ∷ (source_prefix b ++ q.url) ∷ decimal interval ∷ [])) [
              | domain ↦ rw append-nil refl
              | classical ↦ rw append-nil refl
            ]

render_rule-remote_line :
    (interval : ℕ) (target : Text) (q : Provider)
    → render_rule (remote_rule (provider_kind q.behavior) target q.url interval)
      ≡ ok (
          remote_line
            (codes "," ++ source_prefix q.behavior)
            (remote_rule (provider_kind q.behavior) target q.url interval))
unfolding render_rule text_eq
render_rule-remote_line interval target q =
    elim q.behavior
      as (λ b.
        render_rule (remote_rule (provider_kind b) target q.url interval)
        ≡ ok (
            remote_line (codes "," ++ source_prefix b)
              (remote_rule (provider_kind b) target q.url interval))) [
                | domain ↦ refl
                | classical ↦ refl
              ]

-- A character that none of the fixed parts has.
module _ (c : ℕ) where
  fields-HasNo :
      (interval : ℕ) (target : Text) (q : Provider)
      → HasNo c (codes "ruleset=")
      → HasNo c (source_prefix q.behavior)
      → HasNo c (decimal interval)
      → HasNo c target
      → HasNo c q.url
      → All (HasNo c) (
          (codes "ruleset=" ++ target)
          ∷ (source_prefix q.behavior ++ q.url)
          ∷ decimal interval
          ∷ [])
  fields-HasNo interval target q a b n t u = (
    HasNo-append c (codes "ruleset=") target a t,
    (HasNo-append c (source_prefix q.behavior) q.url b u, (n, tt)),
  )

source_prefix-HasNo : (b : Behavior) → HasNo 44 (source_prefix b) × OneLine (source_prefix b)
unfolding any
source_prefix-HasNo domain = (refl, refl)
source_prefix-HasNo classical = (refl, refl)

provider_line :
    (interval : ℕ) (target : Text) (q : Provider)
    → any is_unsafe_in_url q.url ≡ false
    → HasNo 44 target × OneLine target
    → PrintsProvider interval (remote_rule (provider_kind q.behavior) target q.url interval) q
unfolding any
provider_line interval target q safe t =
    let url = unsafe_free q.url safe in
    let prefix = source_prefix-HasNo q.behavior in
    let line =
      remote_line (codes "," ++ source_prefix q.behavior)
        (remote_rule (provider_kind q.behavior) target q.url interval) in
    (
      line,
      render_rule-remote_line interval target q,
      record {
        fields =
            subst
              (λ l.
                split 44 l
                ≡ (codes "ruleset=" ++ target)
                  ∷ (source_prefix q.behavior ++ q.url)
                  ∷ decimal interval
                  ∷ [])
              (sym (remote_line-join interval target q))
              (split-join 44 _ _ (
                fields-HasNo 44 interval target q refl prefix.0 (decimal-HasNo 44 refl interval) t.0
                  url.0));
        one_line = subst OneLine (sym (remote_line-join interval target q)) (
            HasNo-join 10 (codes ",") _ refl (
              fields-HasNo 10 interval target q refl prefix.1 (decimal-HasNo 10 refl interval) t.1
                url.1));
      },
    )

-- The rules of a list of providers are printed as lines for those providers, in their order.
abbrev pub PrintProviders : ℕ → List Rule → List Provider → Type 0
PrintProviders interval [] [] = Unit
PrintProviders interval (r ∷ rs) (q ∷ qs) =
    PrintsProvider interval r q × PrintProviders interval rs qs
PrintProviders interval _ _ = ⊥

module _ (parse_url : Text → Option Url) (d : Data) (interval : ℕ) (plain : HasPlainTargets d) where
  All-PrintProviders :
      (qs : List Provider) (rs : List Rule)
      → All (IsSafe parse_url) qs
      → map_result (provider_rule d interval) qs ≡ ok rs
      → PrintProviders interval rs qs
  unfolding map_result provider_rule
  All-PrintProviders [] rs a e = subst (λ l. PrintProviders interval l []) (ok-injective e) tt
  All-PrintProviders (q ∷ qs) rs a e =
      let (r, one, more) = >>=-eq-ok (provider_rule d interval q) _ e in
      let (rest, ran, done) = >>=-eq-ok (map_result (provider_rule d interval) qs) _ more in
      let (target, found, made) = >>=-eq-ok (custom_rule_target d q.target) _ one in
      subst (λ l. PrintProviders interval l (q ∷ qs)) (ok-injective done)
        (
          subst (λ x. PrintsProvider interval x q) (ok-injective made)
              (provider_line interval target q a.0.one_line (plain q.target target found)),
          All-PrintProviders qs rest a.1 ran,
        )

  -- Each rule that is made of an accepted provider is printed, as one line with the three fields
  -- that it is meant to have, its URL whole, if the names of the groups for custom rules have no
  -- comma and no line break: an accepted URL adds no field and no line.
  pub normalize_custom_rule_providers-lines :
      (value : Value) (qs : List Provider) (rs : List Rule)
      → normalize_custom_rule_providers parse_url value ≡ ok qs
      → map_result (provider_rule d interval) qs ≡ ok rs
      → PrintProviders interval rs qs
  normalize_custom_rule_providers-lines value qs rs e ran =
      All-PrintProviders qs rs (normalize_custom_rule_providers-IsSafe parse_url value qs e).1 ran
