-- ===== src/Payload.antt =====
-- `resolveIniPayload` of worker/index.mjs: what the Worker answers with for a specification.
pub mod Solved
use rules.Base.{
  Bool, true, false, not, ◌&&◌, ◌||◌, Option, none, some, List, [], ◌∷◌, Text, codes, text_eq,
  is_empty, trim, find, Result, ok, err, ◌>>=◌, if◌then◌else◌,
}
use rules.Value.{Value}
use rules.Catalog.{Template, Data}
use rules.Spec.Error.{Error}
use rules.Spec.GroupCatalog.{label_of}
use rules.Spec.Normalize.{ProfileSpec, Platform, normalize_profile_spec}
use rules.Spec.Saved.{saved}
use rules.Resolve.{Resolved, resolve_profile_spec}
use rules.Solve.Subconverter.{Summary, summarize_resolved_profile, solve_subconverter_plan}
use rules.Render.{RenderError, render_ini, render_ini_template}

-- The errors that it throws on.
pub data PayloadError : Type 0 where
  refused : Error → PayloadError
  not_printed : RenderError → PayloadError
  profile_template_unavailable : PayloadError

-- `summary`: of a template without profile options, its base profile and its name
pub data PayloadSummary : Type 0 where
  of_template : Text → Text → PayloadSummary
  of_profile : Summary → PayloadSummary

pub record Payload : Type 0 where
  pub spec : ProfileSpec
  pub summary : PayloadSummary
  pub ini : Text

-- A call whose errors go on to the caller.
abbrev pub throws {ℓ} :
    {E : Type 0} {A : Type ℓ} → (E → PayloadError) → Result E A → Result PayloadError A
throws f (err e) = err (f e)
throws f (ok a) = ok a

-- `template?.supportsProfileOptions === false`
unfoldable pub is_static : Data → Text → Bool
is_static d base = elim d.templates [
  | none ↦ false
  | some templates ↦
      elim (find (λ t. text_eq t.output_format (codes "ini") && text_eq t.id base) templates) [
        | none ↦ false
        | some t ↦ not t.supports_profile_options
      ]
]

-- `runtimeData.iniTemplates?.[spec.baseProfile]`, with the check that follows
unfoldable pub template_source : Data → Text → Result PayloadError Text
template_source d base = elim (label_of base d.ini_templates) [
  | none ↦ err PayloadError.profile_template_unavailable
  | some source ↦
      if is_empty (trim source) then err PayloadError.profile_template_unavailable else ok source
]

-- The payload of a template that has no profile options.
unfoldable pub static_payload : Data → ProfileSpec → Result PayloadError Payload
static_payload d spec = do
  source ← template_source d spec.base_profile
  ini ← throws PayloadError.not_printed (render_ini_template source spec.language d)
  ok (record {
    spec = spec;
    summary = PayloadSummary.of_template spec.base_profile (d.template_name spec.base_profile);
    ini = ini;
  })

-- The payload of a plan that is solved for the specification.
unfoldable pub solved_payload :
    Platform → Data → ProfileSpec → Resolved → Result PayloadError Payload
solved_payload p d spec resolved = do
  solution ← throws PayloadError.refused (solve_subconverter_plan p d (saved spec))
  ini ← throws PayloadError.not_printed (render_ini d solution.1 spec.language spec)
  ok (record {
    spec = spec;
    summary = PayloadSummary.of_profile (summarize_resolved_profile d resolved);
    ini = ini;
  })

-- `resolveIniPayload`; the specification is passed on as the object that it is
unfoldable pub resolve_ini_payload : Platform → Data → Value → Result PayloadError Payload
resolve_ini_payload p d input = do
  spec ← throws PayloadError.refused (normalize_profile_spec p d (codes "ini") input)
  resolved ← throws PayloadError.refused (resolve_profile_spec p d (codes "ini") (saved spec))
  if is_static d spec.base_profile then static_payload d spec else solved_payload p d spec resolved
