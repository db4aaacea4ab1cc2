-- ===== src/Executor/Fetch/Filters.antt =====
-- The label selector that `fetchResources` builds.
use text.Mathlib.TextLemmas.{
  append_assoc, append-eq-nil_iff, nil-append, append-ne-nil_of_right_ne-nil,
}
use k8s_cleaner.Common.{
  String, ◌<>◌, false, ◌≡◌, ◌≢◌, refl, ◌∙◌, ap, inl, inr, List, [], ◌∷◌, ◌==◌, eq_iff, Bool-cases,
}
use k8s_cleaner.Api.{LabelFilter}
use k8s_cleaner.Executor.Fetch.{label_term, label_selector_from}

-- The terms with a comma between each two.
pub join_terms : List LabelFilter → String
join_terms [] = ""
join_terms (f ∷ []) = label_term f
join_terms (f ∷ g ∷ fs) = label_term f <> ("," <> join_terms (g ∷ fs))

equals_ne : (v : String) → "=" <> v ≢ ""
equals_ne v e = cc ((eq_iff "=" "").1 (append-eq-nil_iff.0 e).0)

differs_ne : (v : String) → "!=" <> v ≢ ""
differs_ne v e = cc ((eq_iff "!=" "").1 (append-eq-nil_iff.0 e).0)

-- No term is empty, so the test for an empty selector holds for the first filter only.
label_term-ne-empty : (f : LabelFilter) → label_term f ≢ ""
unfolding label_term
label_term-ne-empty f = elim (Bool-cases f.is_equal) [
  | inl e ↦ rw e (append-ne-nil_of_right_ne-nil f.key (equals_ne f.value))
  | inr e ↦ rw e (append-ne-nil_of_right_ne-nil f.key (differs_ne f.value))
]

not_empty : (s : String) → s ≢ "" → (s == "") ≡ false
not_empty s ne = elim (Bool-cases (s == "")) [ inl e ↦ absurd (ne ((eq_iff s "").0 e)) | inr e ↦ e ]

-- One round of the loop, when something stands in the selector.
label_selector_from-next :
    (acc : String) (f : LabelFilter) (fs : List LabelFilter)
    → acc ≢ ""
    → label_selector_from acc (f ∷ fs) ≡ label_selector_from ((acc <> ",") <> label_term f) fs
unfolding label_selector_from
label_selector_from-next acc f fs ne = rw (not_empty acc ne) refl

label_selector_from-first :
    (f : LabelFilter) (fs : List LabelFilter)
    → label_selector_from "" (f ∷ fs) ≡ label_selector_from (label_term f) fs
unfolding label_selector_from
label_selector_from-first f fs =
    ap (λ (s : String). label_selector_from s fs) (nil-append (label_term f))

label_selector_from-join :
    (acc : String) (f : LabelFilter) (fs : List LabelFilter)
    → acc ≢ ""
    → label_selector_from acc (f ∷ fs) ≡ acc <> ("," <> join_terms (f ∷ fs))
unfolding join_terms
label_selector_from-join acc f [] ne =
    label_selector_from-next acc f [] ne
    ∙ unfold label_selector_from in append_assoc acc "," (label_term f)
label_selector_from-join acc f (g ∷ fs) ne =
    label_selector_from-next acc f (g ∷ fs) ne
    ∙ label_selector_from-join ((acc <> ",") <> label_term f) g fs
        (append-ne-nil_of_right_ne-nil (acc <> ",") (label_term-ne-empty f))
    ∙ rw (append_assoc acc "," (label_term f), append_assoc acc _ _, append_assoc "," _ _) refl

-- The label selector of a request is the terms of the filters, `key=value` for the operation Equal
-- and `key!=value` for any other, with a comma between each two and none at the ends.
pub label_selector-join : (fs : List LabelFilter) → label_selector_from "" fs ≡ join_terms fs
unfolding join_terms
label_selector-join [] = unfold label_selector_from in refl
label_selector-join (f ∷ []) = label_selector_from-first f [] ∙ unfold label_selector_from in refl
label_selector-join (f ∷ g ∷ fs) =
    label_selector_from-first f (g ∷ fs)
    ∙ label_selector_from-join (label_term f) g fs (label_term-ne-empty f)
