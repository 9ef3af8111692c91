-- ===== src/Lib.antt =====
-- Verification of the profile service (apps/profile-service): the Worker that keeps routing profiles
-- for a proxy client, checks them against a catalog, resolves them and hands them out by capability
-- tokens.
--
-- A caller sends a profile specification, an object. `normalizeProfileSpec` of
-- apps/profile-service/worker/solver.mjs checks it field by field against the catalog and gives its
-- canonical form; `resolveProfileSpec` derives the regions and services that stay active. The request
-- handlers store canonical specifications by apps/profile-service/worker/store.mjs, whose table has
-- one row per profile with the hashes of a read token and a manage token; a stored specification goes
-- through `normalizeProfileSpec` again when it is read. `solveSubconverterPlan` rewrites the routing
-- plan of the catalog for a resolved specification: its rules, groups and selectors. `renderIni` of
-- apps/profile-service/worker/render.mjs prints a plan line by line.
--
-- In the browser, `createEditorState` of apps/profile-service/public/editor-state.mjs keeps the draft of
-- a profile, the draft that was saved last and a bounded history to go back to.
--
-- Files:
--   Base          tests on numbers, texts (lists of UTF-16 code units), lists as sets, results
--   Value         the values of JSON, `undefined`, and how objects are read
--   Plan          the types of the routing plan of the catalog
--   Catalog       the types of the catalog, apps/profile-service/worker/generated/runtime-data.mjs
--   Region        worker/solver.mjs: normalizeAlias, buildRegionAliasMap, canonicalizeRegion,
--                 canonicalizeMany
--   Spec          worker/solver.mjs: WellFormed is isWellFormedUnicode; Services canonicalizeServices
--                 and validateServiceRuleOwnership; Providers normalizeCustomRuleProviders;
--                 GroupCatalog serviceGroupCatalog and what it calls; Groups normalizeServiceGroups,
--                 stage by stage; Normalize normalizeProfileSpec; Saved the JSON of a specification
--   Resolve       worker/solver.mjs: resolveProfileSpec
--   Solve         worker/solver.mjs, the INI plan solver: Filters is negativeFilter and
--                 positiveFilter; Candidates reorderCandidates; CustomRules customIniRules,
--                 insertIniCustomRules and what they call; ServiceGroups serviceGroupCandidates and
--                 addScopedIniRegionGroups; Layout applyIniServiceGroups; Rewrite the loop of
--                 solveSubconverterPlan over the sections; Subconverter solveSubconverterPlan and
--                 summarizeResolvedProfile
--   Render        worker/render.mjs: renderIni and renderIniTemplate
--   Payload       worker/index.mjs: resolveIniPayload
--   Options       worker/profile_options.mjs: its filters, reorderChoices and serviceGroupRouteChoices,
--                 which do again for YAML profiles what the plan solver does for INI plans
--   Editor        public/editor-state.mjs of the browser application: Draft is copyEditorDraft, with
--                 copyServiceGroups of public/service-group-editor.js; Fingerprint fingerprint; State
--                 createEditorState and its methods; History sequences of their calls; ServiceGroups
--                 effectiveServiceGroups of public/service-group-editor.js
--   Store         worker/store.mjs on the table of migrations/0001_profiles.sql; Store/Token is
--                 randomToken with the token pattern of worker/index.mjs
--   Tests         a small catalog, runs of the functions on it, and instances of the theorems
--
-- A thrown ProfileSpecError is `err` of its code (its message is left out), a returned value is `ok`;
-- `??`, `typeof` and `Array.isArray` tests are clauses on the constructors of Value. A `Set` or `Map`
-- is a list in insertion order. Loops are structural recursion, without fuel; only the
-- digits of a number n are computed in n + 1 steps, which are enough, since each divides by ten. The catalog is an
-- argument and typed, so tests of its fields' JavaScript types always pass. Numbers of the catalog and
-- lengths are natural numbers.
--
-- Parameters, which are code outside the repository: case folding, NFKC and the letter and number
-- classes (Unicode), `new URL` (parse_url), SHA-256 (sha256_hex), for which no property is assumed;
-- where two hashes have to differ a theorem says so. Random bytes, ids and the clock are arguments.
-- The database is the list of its rows; a statement that would break a uniqueness constraint of the
-- table is refused. `JSON.stringify` followed by `JSON.parse` is taken to keep a specification's
-- fields: `saved` is the object that comes back.
--
-- The editor's variables are a record and each of its methods a function from the record; an error that
-- it throws is `err`. Copies by structuredClone are the value itself. The draft's revisions are natural
-- numbers.
--
-- Not modelled: the rest of worker/profile_options.mjs, which makes the YAML profiles, the request
-- handlers, the subscription converter and the node adapters, the rest of the browser application, the
-- LuCI views and the web site; tools in other languages; the text of error messages.
mod Base
pub mod Value
pub mod Plan
pub mod Catalog
pub mod Region
pub mod Spec
pub mod Resolve
pub mod Solve
pub mod Render
pub mod Editor
pub mod Options
pub mod Payload
pub mod Store
mod Tests
