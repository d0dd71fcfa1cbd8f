-- ===== src/Load/Accepted.antt =====
-- What a document that is loaded has passed.

use specmcp.Prelude.{
  String, ◌≡◌, ◌≢◌, refl, subst, ap, ◌∙◌, ◌⊎◌, inl, inr, true, false, Option, none, some,
  Bool-cases,
}
use specmcp.Prelude.Dict.{Dict}
use specmcp.Prelude.Text.{is_nil, has_prefix}
use specmcp.Json.{Json, str, arr, Items, truthy, get_or}
use specmcp.Errors.Loaded.{Loaded, loaded, other_exception, ◌>>=◌, >>=-eq-loaded, loaded_injective}
use specmcp.Load.{
  Verdict, valid, invalid, not_installed, Outside, RawSpec, ResolvedSpec, str_has_prefix,
  known_version, detect_openapi_version, looks_like_json, as_mapping, resolved, validated,
  parse_raw, read_source, load_spec,
}

-- The field `openapi` of a document is a text that begins with the version found, 3.0 or 3.1, and
-- the document has no `swagger`.
pub record IsSupported (document : Dict Json) (version : String) : Type 0 where
  pub openapi : String
  pub field : get_or document "openapi" (str "") ≡ str openapi
  pub no_swagger : truthy (get_or document "swagger" (str "")) ≡ false
  pub known : (version ≡ "3.0") ⊎ (version ≡ "3.1")
  pub begins : has_prefix openapi version ≡ true

known-IsSupported :
    (document : Dict Json) (v : Json) (version : String)
    → get_or document "openapi" (str "") ≡ v
    → truthy (get_or document "swagger" (str "")) ≡ false
    → known_version v ≡ loaded version
    → IsSupported document version
known-IsSupported document (str s) version e absent h = elim (Bool-cases (is_nil s)) [
  | inl empty ↦ cc (rw empty at h)
  | inr given ↦
      let h1 = rw given at h in
      elim (Bool-cases (has_prefix s "3.1")) [
        | inl one ↦
            let same : ◌≡◌ {A = Loaded String} (loaded "3.1") (loaded version) = rw one at h1 in
            let v : version ≡ "3.1" = cc in
            record { openapi = s; field = e; no_swagger = absent; known = inr v; begins = rw v one }
        | inr other ↦
            let h2 = rw other at h1 in
            elim (Bool-cases (has_prefix s "3.0")) [
              | inl zero ↦
                  let same : ◌≡◌ {A = Loaded String} (loaded "3.0") (loaded version) =
                    rw zero at h2 in
                  let v : version ≡ "3.0" = cc in
                  record {
                    openapi = s;
                    field = e;
                    no_swagger = absent;
                    known = inl v;
                    begins = rw v zero;
                  }
              | inr bad ↦ cc (rw bad at h2)
            ]
      ]
]
known-IsSupported document v version e absent h = cc

detect-IsSupported :
    (document : Dict Json) (version : String)
    → detect_openapi_version document ≡ loaded version
    → IsSupported document version
unfolding detect_openapi_version
detect-IsSupported document version h =
    let old = str_has_prefix (get_or document "openapi" (str "")) "2." in
    elim (Bool-cases (truthy (get_or document "swagger" (str "")))) [
      | inl swagger ↦ cc (rw (swagger, detect_openapi_version) at h)
      | inr absent ↦
          let h1 = rw (absent, detect_openapi_version) at h in
          elim (Bool-cases old) [
            | inl two ↦ cc (rw two at h1)
            | inr later ↦ known-IsSupported document _ version refl absent (rw later at h1)
          ]
    ]

module _ (outside : Outside) (source : String) where
  pub record IsAccepted (raw : RawSpec) (spec : ResolvedSpec) : Type 0 where
    pub content : String
    pub parsed : Json
    pub read : read_source outside source ≡ loaded content
    pub parse : parse_raw outside content source ≡ loaded parsed
    pub mapping : as_mapping parsed ≡ loaded raw.document
    pub supported : IsSupported raw.document spec.openapi_version
    pub resolved_document : outside.resolve source ≡ some spec.document
    pub checked : outside.validate spec.document ≢ invalid

  resolved-eq : (o : Option (Dict Json)) (d : Dict Json) → resolved o ≡ loaded d → o ≡ some d
  resolved-eq none d h = cc
  resolved-eq (some e) d h = cc

  validated-eq :
      (v : Verdict) (d e : Dict Json) → validated v d ≡ loaded e → (d ≡ e) × (v ≢ invalid)
  validated-eq valid d e h = (cc, λ q. cc)
  validated-eq invalid d e h = cc
  validated-eq not_installed d e h = (cc, λ q. cc)

  -- A document that is loaded was read and parsed to a mapping, declares OpenAPI 3.0 or 3.1 and no
  -- Swagger version, was resolved, and in its resolved form was not found invalid by the meta-schema.
  pub load_spec-IsAccepted :
      (raw : RawSpec) (spec : ResolvedSpec)
      → load_spec outside source ≡ loaded (raw, spec)
      → IsAccepted raw spec
  unfolding load_spec
  load_spec-IsAccepted raw spec h =
      let (content, read, h1) = >>=-eq-loaded (read_source outside source) _ h in
      let (parsed, parse, h2) = >>=-eq-loaded (parse_raw outside content source) _ h1 in
      let (fields, mapping, h3) = >>=-eq-loaded (as_mapping parsed) _ h2 in
      let (version, detect, h4) = >>=-eq-loaded (detect_openapi_version fields) _ h3 in
      let (document, res, h5) = >>=-eq-loaded (resolved (outside.resolve source)) _ h4 in
      let (checked, val, h6) =
        >>=-eq-loaded (validated (outside.validate document) document) _ h5 in
      let (same, fine) = validated-eq (outside.validate document) document checked val in
      let taken : RawSpec × ResolvedSpec = (
        record { document = fields; source = source },
        record { document = checked; source = source; openapi_version = version },
      ) in
      let accepted : IsAccepted taken.0 taken.1 = record {
        content = content;
        parsed = parsed;
        read = read;
        parse = parse;
        mapping = mapping;
        supported = detect-IsSupported fields version detect;
        resolved_document = resolved-eq (outside.resolve source) document res ∙ ap some same;
        checked = λ bad. fine (ap outside.validate same ∙ bad);
      } in
      subst (λ (q : RawSpec × ResolvedSpec). IsAccepted q.0 q.1) (loaded_injective h6) accepted

  -- A JSON document that is a list is not refused with an error of the taxonomy: the code takes it
  -- for a mapping and raises AttributeError.
  pub load_spec_list :
      (content : String) (vs : Items)
      → read_source outside source ≡ loaded content
      → looks_like_json content source ≡ true
      → outside.json_loads content ≡ some (arr vs)
      → load_spec outside source ≡ other_exception
  unfolding load_spec parse_raw ◌>>=◌
  load_spec_list content vs read json parse = rw read (rw json (rw parse refl))
