-- ===== src/Validate.antt =====
-- validate/labels.go. Regular expressions are the parameter: how a text is compiled, whether one
-- matches a text, and how it prints.
pub mod Laws
mod Tests
use Prim.Native.String.{◌++◌ as str_append}
use appuio_cloud_agent.Base.{
  String, Bool, ◌&&◌, List, [], ◌∷◌, ◌++◌, Option, none, some, Dict, if◌then◌else◌, any, map,
}
use appuio_cloud_agent.Kube.{
  Error, cause, errorf, wrapf, lit, str, end, text, Result, ok, err, ◌>>=◌, Multierr,
}

-- `regexp`: `Compile`, `MatchString` and `String`.
pub record Regexps : Type 1 where
  pub Regexp : Type 0
  pub compile : String → Result Regexp
  pub match_string : Regexp → String → Bool
  pub show : Regexp → String

-- `if err != nil { return fmt.Errorf("…: %w", err) }`
abbrev pub annotated : {A : Type 0} → String → Result A → Result A
annotated what (ok a) = ok a
annotated what (err e) = err (wrapf (text what) e)

-- `strings.Join`
abbrev pub join_strings : String → List String → String
join_strings sep [] = ""
join_strings sep (w ∷ []) = w
join_strings sep (w ∷ x ∷ ws) = str_append w (str_append sep (join_strings sep (x ∷ ws)))

module _ (regexps : Regexps) where
  open regexps use {Regexp, compile, match_string, show}

  pub record RegexKv : Type 0 where
    pub k : Regexp
    pub v : Regexp

  abbrev pub regex_kv_string : RegexKv → String
  regex_kv_string r = str_append (show r.k) (str_append "=" (show r.v))

  pub record AllowedLabels : Type 0 where
    pub allowed : List RegexKv

  abbrev pub anchor : String → String
  anchor s = str_append "^(?:" (str_append s ")$")

  unfoldable pub add : AllowedLabels → String → String → Result AllowedLabels
  add l key value = annotated "invalid key: " (compile (anchor key)) >>= λ key_r.
      annotated "invalid value: " (compile (anchor value)) >>= λ value_r.
      ok (record { allowed = l.allowed ++ record { k = key_r; v = value_r } ∷ [] })

  -- `none` is nil.
  unfoldable pub validate_label : AllowedLabels → String → String → Option Error
  validate_label l key value =
      if any (λ a. match_string a.k key && match_string a.v value) l.allowed
      then none
      else some (errorf (lit "label " (str key (lit "=" (str value (lit " is not allowed" end))))))

  abbrev pub format_labels : AllowedLabels → String
  format_labels l =
      str_append "{ " (str_append (join_strings ", " (map regex_kv_string l.allowed)) " }")

  -- `append` on the violations; `multierr.Combine` passes over a nil.
  abbrev pub append_violation : Option Error → List Error → List Error
  append_violation none es = es
  append_violation (some e) es = e ∷ es

  module _ (multierr : Multierr) where
    abbrev pub violations : AllowedLabels → Dict String → List Error
    violations l [] = []
    violations l ((k, v) ∷ lbls) = append_violation (validate_label l k v) (violations l lbls)

    abbrev pub failed : AllowedLabels → Option Error → Option Error
    failed l none = none
    failed l (some e) = some (
        wrapf
          (lit "label validation failed: "
            (cause e (lit ", allowed labels: " (str (format_labels l) end))))
          e)

    unfoldable pub validate : AllowedLabels → Dict String → Option Error
    validate l lbls = failed l (multierr.combine (violations l lbls))
