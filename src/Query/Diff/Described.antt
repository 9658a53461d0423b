-- ===== src/Query/Diff/Described.antt =====
-- What `Diff` lists, internal/query/query.go.
use wowdoc.Base.{◌≡◌, refl, ap, sym, ◌≢◌, ◌↔◌, Option, none, some, List, [], Text, text_eq, ok}
use wowdoc.Base.Dict.{Dict, lookup}
use wowdoc.Base.Sort.{sort_by, sort_by-IsSorted, text_lt-asym, text_lt-negtrans}
use wowdoc.Base.Order.{IsBefore, Pairwise, sort_by-related, not_after-IsBefore}
use wowdoc.Base.Entries.{HasDistinctKeys, lookup-Has}
use wowdoc.Query.Ready.{open_branch}
use wowdoc.Query.Diff.{
  DiffItem, Diff, load, diff, removed_item, changed_item, added_item, items_of, key_before,
  diff_maps,
}
use wowdoc.Query.Diff.Rows.{IsAbsent, IsLastOf, load-IsAbsent, load-IsLastOf}
use wowdoc.Query.Diff.Items.{
  KeysDiffer, items_of-Pairwise, Lists, load-HasDistinctKeys, sorted-Lists, Lists-sorted,
  removed_item_lem, added_item_lem, changed_item_lem, removed_item-some, added_item-some,
  changed_item-some,
}

-- The first key comes before the second.
abbrev pub KeysAscend : DiffItem → DiffItem → Type 0
KeysAscend x y = IsBefore x.key y.key

-- What each list of a comparison holds, by the rows of both snapshots, and in which order.
pub record IsDiff (left right : List (Text × Text)) (d : Diff) : Type 0 where
  pub removed :
      (x : DiffItem)
      → Lists d.removed x ↔ ((x.after ≡ []) × IsLastOf left x.key x.before × IsAbsent right x.key)
  pub added :
      (x : DiffItem)
      → Lists d.added x ↔ ((x.before ≡ []) × IsAbsent left x.key × IsLastOf right x.key x.after)
  pub changed :
      (x : DiffItem)
      → Lists d.changed x
        ↔ (IsLastOf left x.key x.before × IsLastOf right x.key x.after × (x.before ≢ x.after))
  pub ascending :
      Pairwise KeysAscend d.removed × Pairwise KeysAscend d.added × Pairwise KeysAscend d.changed

-- A loop over a map makes a list that ascends once it is sorted.
sorted-Pairwise :
    (f : Text → Text → Option DiffItem)
    → ((k v : Text) (x : DiffItem) → f k v ≡ some x → x.key ≡ k)
    → (m : Dict Text Text) → HasDistinctKeys m
    → Pairwise KeysAscend (sort_by key_before (items_of f m))
sorted-Pairwise f keyed m h =
    sort_by-related key_before KeysDiffer (λ x y n e. n (sym e)) KeysAscend
      (λ x y. not_after-IsBefore x.key y.key) (items_of f m)
      (sort_by-IsSorted key_before (λ a b. text_lt-asym a.key b.key)
        (λ a b c. text_lt-negtrans a.key b.key c.key) (items_of f m))
      (items_of-Pairwise f keyed m h)

module _ (left right : Dict Text Text) (hl : HasDistinctKeys left)
    (hr : HasDistinctKeys right) where
  removed_iff :
      (x : DiffItem)
      → Lists (diff_maps left right).removed x
        ↔ ((x.after ≡ []) × (lookup x.key left ≡ some x.before) × (lookup x.key right ≡ none))
  unfolding diff_maps
  removed_iff x = (
    λ h.
        let (k, v, m, e) = sorted-Lists (removed_item right) left x h in
        let (gone, same) = removed_item_lem right k v x e in
        let there = lookup-Has left k v hl m in (cc, cc, cc),
    λ (a, l, r).
        Lists-sorted (removed_item right) left x.key x.before x l (removed_item-some right x a r),
  )

  added_iff :
      (x : DiffItem)
      → Lists (diff_maps left right).added x
        ↔ ((x.before ≡ []) × (lookup x.key left ≡ none) × (lookup x.key right ≡ some x.after))
  unfolding diff_maps
  added_iff x = (
    λ h.
        let (k, v, m, e) = sorted-Lists (added_item left) right x h in
        let (gone, same) = added_item_lem left k v x e in
        let there = lookup-Has right k v hr m in (cc, cc, cc),
    λ (b, l, r).
        Lists-sorted (added_item left) right x.key x.after x r (added_item-some left x b l),
  )

  changed_iff :
      (x : DiffItem)
      → Lists (diff_maps left right).changed x ↔ (
          (lookup x.key left ≡ some x.before)
          × (lookup x.key right ≡ some x.after)
          × (x.before ≢ x.after))
  unfolding diff_maps
  changed_iff x = (
    λ h.
        let (k, v, m, e) = sorted-Lists (changed_item right) left x h in
        let (found, differ, same) = changed_item_lem right k v x e in
        let there = lookup-Has left k v hl m in (cc, cc, λ p. differ (cc)),
    λ (l, r, differ).
        Lists-sorted (changed_item right) left x.key x.before x l
          (changed_item-some right x r differ),
  )

  diff_maps-ascending :
      Pairwise KeysAscend (diff_maps left right).removed
      × Pairwise KeysAscend (diff_maps left right).added
      × Pairwise KeysAscend (diff_maps left right).changed
  unfolding diff_maps
  diff_maps-ascending = (
    sorted-Pairwise (removed_item right)
        (λ k v x e. ap (λ (y : DiffItem). y.key) (sym (removed_item_lem right k v x e).1)) left hl,
    sorted-Pairwise (added_item left)
        (λ k v x e. ap (λ (y : DiffItem). y.key) (sym (added_item_lem left k v x e).1)) right hr,
    sorted-Pairwise (changed_item right)
        (λ k v x e. ap (λ (y : DiffItem). y.key) (sym (changed_item_lem right k v x e).2)) left hl,
  )

module _ (l r : List (Text × Text)) where
  abbrev compared : Diff
  compared = diff_maps (load [] l) (load [] r)

  distinct : (rows : List (Text × Text)) → HasDistinctKeys (load [] rows)
  distinct rows = load-HasDistinctKeys [] rows tt

  compared-IsDiff : IsDiff l r compared
  compared-IsDiff = record {
    removed = λ x.
        let (there, back) = removed_iff (load [] l) (load [] r) (distinct l) (distinct r) x in
        let (first, first') = load-IsLastOf l x.key x.before in
        let (gone, gone') = load-IsAbsent r x.key in
        (
          λ h. let (a, b, c) = there h in (a, first b, gone c),
          λ (a, b, c). back (a, first' b, gone' c),
        );
    added = λ x.
        let (there, back) = added_iff (load [] l) (load [] r) (distinct l) (distinct r) x in
        let (gone, gone') = load-IsAbsent l x.key in
        let (second, second') = load-IsLastOf r x.key x.after in
        (
          λ h. let (a, b, c) = there h in (a, gone b, second c),
          λ (a, b, c). back (a, gone' b, second' c),
        );
    changed = λ x.
        let (there, back) = changed_iff (load [] l) (load [] r) (distinct l) (distinct r) x in
        let (first, first') = load-IsLastOf l x.key x.before in
        let (second, second') = load-IsLastOf r x.key x.after in
        (
          λ h. let (a, b, c) = there h in (first a, second b, c),
          λ (a, b, c). back (first' a, second' b, c),
        );
    ascending = diff_maps-ascending (load [] l) (load [] r) (distinct l) (distinct r);
  }

  -- Where both snapshots can be read, `Diff` answers. By the last row of a key in each snapshot,
  -- its lists hold exactly the keys that only the first snapshot has, that only the second has,
  -- and that both have with different values, with these values; the keys of each list ascend
  -- strictly in the order of their code points.
  pub diff-IsDiff : (d : Diff) × (diff (ok tt) (ok tt) (ok l) (ok r) ≡ ok d) × IsDiff l r d
  unfolding diff open_branch
  diff-IsDiff = (compared, refl, compared-IsDiff)
