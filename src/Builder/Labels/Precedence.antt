-- ===== src/Builder/Labels/Precedence.antt =====
-- Whose value a merged label or annotation has.
use pgpilot_operator.Base.{String, ◌≡◌, arith, string_eq}
use pgpilot_operator.Base.Dict.{Dict, or_else, lookup, lookup-nil, lookup-copy}
use pgpilot_operator.Builder.Labels.{merge_labels, merge_annotations}

pub lookup-merge_labels :
    (k : String) (system user : Dict String String)
    → lookup k (merge_labels system user) ≡ or_else (lookup k system) (lookup k user)
unfolding merge_labels
lookup-merge_labels k system user = rw (lookup-copy, lookup-copy, lookup-nil) (ground arith)

pub lookup-merge_annotations :
    (k : String) (system user : Dict String String)
    → lookup k (merge_annotations system user) ≡ or_else (lookup k system) (lookup k user)
unfolding merge_annotations
lookup-merge_annotations k system user = rw (lookup-copy, lookup-copy, lookup-nil) (ground arith)

-- A merged label has the system's value where the system has one, and the user's otherwise; so has a
-- merged annotation.
pub lookup-merged_metadata :
    (k : String) (system user : Dict String String)
    → (lookup k (merge_labels system user) ≡ or_else (lookup k system) (lookup k user))
      × (lookup k (merge_annotations system user) ≡ or_else (lookup k system) (lookup k user))
lookup-merged_metadata k system user =
    (lookup-merge_labels k system user, lookup-merge_annotations k system user)
