-- ===== src/Tree/Graph/Entries.antt =====
-- The table of the entries of a graph, their names and their order.
use nix_strix_halo.Prelude.{
  ◌≡◌, refl, sym, subst, ap, ◌∙◌, ◌⊎◌, inl, inr, none, some, List, [], ◌∷◌, arith, In, Bool-cases,
  Option-cases,
}
use nix_strix_halo.Prelude.Order.{
  IsOrder, compare-IsOrder, lex-IsOrder, by_key-IsOrder, pair-IsOrder,
}
use nix_strix_halo.Prelude.Sort.{sorted, IsAscending, sorted-IsAscending, In-sorted}
use nix_strix_halo.Prelude.Text.{Text, text_eq, text_eq_iff, text_eq_refl}
use nix_strix_halo.Prelude.Dict.{Dict, get, put, values, get-put}
use nix_strix_halo.Tree.Git.{yields}
use nix_strix_halo.Tree.Names.{input_name}
use nix_strix_halo.Tree.Flake.{SourceEntry}
use nix_strix_halo.Tree.Graph.{
  GitSource, Git, Entries, Deep, add_entry, build_graph, compare_entry, depth,
}
use nix_strix_halo.Tree.Graph.Loops.{build_graph-keeps}

compare_entry-IsOrder : IsOrder compare_entry
unfolding compare_entry
compare_entry-IsOrder =
    pair-IsOrder (by_key-IsOrder compare-IsOrder (λ e. depth e.path))
      (by_key-IsOrder (lex-IsOrder compare-IsOrder) (λ e. e.path))

-- A key that is not there is put at the end.
In-put :
    {V : Type 0} (k : Text) (v : V) (d : Dict V) (p : Text × V)
    → get k d ≡ none
    → In p (put k v d)
    → (p ≡ (k, v)) ⊎ In p d
unfolding get put
In-put k v [] p h (inl q) = inl q
In-put k v [] p h (inr m) = absurd m
In-put k v ((j, w) ∷ d) p h m = elim (Bool-cases (text_eq j k)) [
  | inl e ↦ cc (rw e at h)
  | inr e ↦ elim (rw e at m) [
    | inl q ↦ inr (inl q)
    | inr n ↦ elim (In-put k v d p (rw e at h) n) [ inl q ↦ inl q | inr l ↦ inr (inr l) ]
  ]
]

In-values : {V : Type 0} (d : Dict V) (v : V) → In v (values d) → (k : Text) × In (k, v) d
In-values [] v m = absurd m
In-values ((j, w) ∷ d) v (inl q) = (j, inl (ap (λ u. (j, u)) q))
In-values ((j, w) ∷ d) v (inr m) = let (k, there) = In-values d v m in (k, inr there)

module _ (git : Git) (series target : Text) where
  -- Each pair of the table is the one that its key finds, and is named for the key.
  record IsEntry (entries : Entries) (k : Text) (e : SourceEntry) : Type 0 where
    found : get k entries ≡ some e
    placed : e.path ≡ k
    named : e.input_name ≡ input_name git.sha1 series target k

  IsTable : Entries → Type 0
  IsTable entries = (k : Text) (e : SourceEntry) → In (k, e) entries → IsEntry entries k e

  put-IsTable :
      (path : Text) (new : SourceEntry) (entries : Entries)
      → get path entries ≡ none
      → new.path ≡ path
      → new.input_name ≡ input_name git.sha1 series target path
      → IsTable entries
      → IsTable (put path new entries)
  unfolding IsTable
  put-IsTable path new entries fresh placed named t k e m =
      elim (In-put path new entries (k, e) fresh m) [
        | inl q ↦
            let same : k ≡ path = ap (λ p. p.0) q in
            let new_one : e ≡ new = ap (λ p. p.1) q in
            rw (same, new_one)
              (record {
                found = ground (arith, get-put path path new entries, text_eq_refl path);
                placed = placed;
                named = named;
              })
        | inr old ↦
            let i = t k e old in
            record {
              found = ground (arith, get-put path k new entries, text_eq_iff path k, i.found);
              placed = i.placed;
              named = i.named;
            }
      ]

  pub add_entry-new :
      (path url rev : Text) (entries : Entries)
      → get path entries ≡ none
      → add_entry git series target path url rev entries
        ≡ put path
            (record {
              path = path;
              url = url;
              rev = rev;
              input_name = input_name git.sha1 series target path;
            })
            entries
  unfolding add_entry
  add_entry-new path url rev entries e = rw (e, add_entry)

  -- The first entry of a path stays.
  pub add_entry-old :
      (path url rev : Text) (entries : Entries) (old : SourceEntry)
      → get path entries ≡ some old
      → add_entry git series target path url rev entries ≡ entries
  unfolding add_entry
  add_entry-old path url rev entries old e = rw (e, add_entry)

  add_entry-IsTable :
      (path url rev : Text) (entries : Entries)
      → IsTable entries
      → IsTable (add_entry git series target path url rev entries)
  add_entry-IsTable path url rev entries t = elim (Option-cases (get path entries)) [
    | inl e ↦
        subst IsTable (sym (add_entry-new path url rev entries e))
          (put-IsTable path _ entries e refl refl t)
    | inr (old, e) ↦ subst IsTable (sym (add_entry-old path url rev entries old e)) t
  ]

  nothing-IsTable : IsTable []
  unfolding IsTable
  nothing-IsTable k e m = absurd m

  module _ (root : GitSource) (paths fetch_args : List Text) (deep : Deep)
      (root_entry : SourceEntry) (entries : List SourceEntry)
      (built : build_graph git series target root paths fetch_args deep
        ≡ yields (root_entry, entries)) where
    table_of : (table : Entries) × IsTable table × (sorted compare_entry (values table) ≡ entries)
    table_of =
        build_graph-keeps git series target IsTable add_entry-IsTable root paths fetch_args deep
          root_entry entries built nothing-IsTable

    listed : (e : SourceEntry) → In e entries → (k : Text) × IsEntry table_of.0 k e
    unfolding IsTable
    listed e m =
        let (k, there) =
          In-values table_of.0 e
            (In-sorted compare_entry e (values table_of.0) (rw (← table_of.2) at m)) in
        (k, table_of.1 k e there)

    -- The entries of a graph that build_graph returns stand in the order of their depth, and of
    -- their path at one depth.
    pub build_graph-IsAscending : IsAscending compare_entry entries
    build_graph-IsAscending =
        subst (IsAscending compare_entry) table_of.2
          (sorted-IsAscending compare_entry-IsOrder (values table_of.0))

    -- The input of every entry of a graph that build_graph returns is named by input_name for the
    -- path of the entry.
    pub build_graph-input_name :
        (e : SourceEntry) → In e entries → e.input_name ≡ input_name git.sha1 series target e.path
    build_graph-input_name e m =
        let (k, i) = listed e m in i.named ∙ ap (input_name git.sha1 series target) (sym i.placed)
