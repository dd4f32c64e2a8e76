-- ===== src/Checks/Grouping/Laws.antt =====
-- What the groups hold.
use mathlib.Core.List.{append_assoc, append-nil}
use guard_cli.Prelude.{
  String, ◌≡◌, refl, sym, ap, ◌∙◌, Option, none, some, List, [], ◌∷◌, ◌++◌, Eq, ◌==◌, string_eq,
  retain, Bool-cases, inl, inr,
}
use guard_cli.Prelude.Maps.{
  Ord, lookup, tree_entry, IsOrdered, lookup-tree_entry, tree_entry-IsOrdered,
}
use guard_cli.Prelude.Text.{string_ord}
use guard_cli.Checks.Finding.{Severity, Finding, severity_eq, severity_ord}
use guard_cli.Checks.Grouping.{push, group_from, group_by_file, group_by_severity}

-- a group with more findings behind it; no group is empty
abbrev pub joined : Option (List Finding) → List Finding → Option (List Finding)
joined none [] = none
joined none (f ∷ fs) = some (f ∷ fs)
joined (some gs) fs = some (gs ++ fs)

joined-push :
    (o : Option (List Finding)) (f : Finding) (fs : List Finding)
    → joined (some (push f o)) fs ≡ joined o (f ∷ fs)
joined-push none f fs = refl
joined-push (some gs) f fs = simp append_assoc

joined-nil : (o : Option (List Finding)) → joined o [] ≡ o
joined-nil none = refl
joined-nil (some gs) = ap some (append-nil gs)

module _ {K : Type 0} ⦃e : Eq K⦄ ⦃o : Ord K⦄ (key : Finding → K) where
  lookup-group_from :
      (m : List (K × List Finding)) (fs : List Finding) (k : K)
      → IsOrdered m
      → lookup k (group_from key m fs) ≡ joined (lookup k m) (retain (λ f. key f == k) fs)
  unfolding group_from
  lookup-group_from m [] k h = sym (joined-nil (lookup k m))
  lookup-group_from m (f ∷ fs) k h =
      let ih =
        lookup-group_from (tree_entry (key f) (push f) m) fs k
          (tree_entry-IsOrdered (key f) (push f) m h) in
      elim (Bool-cases (key f == k)) [
        | inl same ↦
            ih
            ∙ rw (lookup-tree_entry (key f) k (push f) m h, same, (e.beq_iff (key f) k).0 same)
                (joined-push (lookup k m) f (retain (λ g. key g == k) fs))
        | inr other ↦ ih ∙ rw (lookup-tree_entry (key f) k (push f) m h, other)
      ]

  group_from-IsOrdered :
      (m : List (K × List Finding)) (fs : List Finding)
      → IsOrdered m
      → IsOrdered (group_from key m fs)
  unfolding group_from
  group_from-IsOrdered m [] h = h
  group_from-IsOrdered m (f ∷ fs) h =
      group_from-IsOrdered (tree_entry (key f) (push f) m) fs
        (tree_entry-IsOrdered (key f) (push f) m h)

-- The files ascend strictly. The group of a file is the list of the findings in that file, in
-- their order, and a file with no finding has no group.
pub group_by_file-groups :
    (fs : List Finding)
    → IsOrdered (group_by_file fs)
      × ((path : String)
          → lookup path (group_by_file fs) ≡ joined none (retain (λ f. f.file_path == path) fs))
unfolding group_by_file lookup
group_by_file-groups fs = (
  group_from-IsOrdered (λ f. f.file_path) [] fs tt,
  λ path. lookup-group_from (λ f. f.file_path) [] fs path tt,
)

-- The severities ascend strictly, from high to low. The group of a severity is the list of the
-- findings of that severity, in their order, and a severity with no finding has no group.
pub group_by_severity-groups :
    (fs : List Finding)
    → IsOrdered (group_by_severity fs)
      × ((s : Severity)
          → lookup s (group_by_severity fs) ≡ joined none (retain (λ f. f.severity == s) fs))
unfolding group_by_severity lookup
group_by_severity-groups fs = (
  group_from-IsOrdered (λ f. f.severity) [] fs tt,
  λ s. lookup-group_from (λ f. f.severity) [] fs s tt,
)
