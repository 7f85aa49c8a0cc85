-- ===== src/Tree/Graph/Roots.antt =====
-- What the loop over the enabled paths records of them is never overwritten.
use nix_strix_halo.Prelude.{
  ◌≡◌, refl, sym, subst, ◌∙◌, ◌⊎◌, inl, inr, false, none, some, List, [], ◌∷◌, arith, In,
  Bool-cases, Option-cases,
}
use nix_strix_halo.Prelude.Sort.{sorted-In}
use nix_strix_halo.Prelude.Text.{Text, text_eq, text_eq_iff, text_eq_refl}
use nix_strix_halo.Prelude.Dict.{Dict, get, put, values, get-put}
use nix_strix_halo.Tree.Git.{Meta, yields, tree_commit}
use nix_strix_halo.Tree.Flake.{SourceEntry}
use nix_strix_halo.Tree.Graph.{
  GitSource, Git, Entries, Deep, add_entry, add_root, add_roots, resolve, build_graph,
  compare_entry,
}
use nix_strix_halo.Tree.Graph.Loops.{>>=-yields, add_root-keeps, build_graph-roots}
use nix_strix_halo.Tree.Names.{input_name}
use mathlib.Core.Option.{some-injective}
use nix_strix_halo.Tree.Graph.Entries.{add_entry-new, add_entry-old}

get-values : {V : Type 0} (k : Text) (v : V) (d : Dict V) → get k d ≡ some v → In v (values d)
unfolding get
get-values k v [] h = cc
get-values k v ((j, w) ∷ d) h = elim (Bool-cases (text_eq j k)) [
  | inl e ↦ inl (sym (cc (rw e at h)))
  | inr e ↦ inr (get-values k v d (rw e at h))
]

module _ (git : Git) (series target : Text) (root : GitSource) where
  -- The entry is what the root repository pins at the path.
  pub record IsPinnedAt (path : Text) (e : SourceEntry) : Type 0 where
    pub meta : Meta
    pub placed : e.path ≡ path
    pub resolved : resolve git series target root path false ≡ yields meta
    pub origin : e.url ≡ meta.url
    pub commit : tree_commit (git.ls_tree root path) path ≡ yields e.rev

  Has : Text → Entries → Type 0
  Has path entries = (e : SourceEntry) × (get path entries ≡ some e) × IsPinnedAt path e

  add_entry-Has :
      (at path url rev : Text) (entries : Entries)
      → Has at entries
      → Has at (add_entry git series target path url rev entries)
  unfolding Has
  add_entry-Has at path url rev entries (e, there, pinned) =
      elim (Option-cases (get path entries)) [
        | inr (old, taken) ↦
            subst (Has at) (sym (add_entry-old git series target path url rev entries old taken))
              (e, there, pinned)
        | inl free ↦ elim (Bool-cases (text_eq path at)) [
          | inl same ↦ let q : path ≡ at = (text_eq_iff path at).0 same in cc (there, free, q)
          | inr other ↦
              subst (Has at) (sym (add_entry-new git series target path url rev entries free))
                (e, get-put path at _ entries ∙ rw other there, pinned)
        ]
      ]

  has :
      (path : Text) (entries : Entries) (e : SourceEntry)
      → get path entries ≡ some e
      → IsPinnedAt path e
      → Has path entries
  unfolding Has
  has path entries e there pinned = (e, there, pinned)

  -- Every entry so far is what the root repository pins at its path.
  AreRoots : Entries → Type 0
  AreRoots entries = (path : Text) (e : SourceEntry) → get path entries ≡ some e → IsPinnedAt path e

  put-Roots :
      (path : Text) (m : Meta) (commit name : Text) (entries : Entries)
      → get path entries ≡ none
      → AreRoots entries
      → resolve git series target root path false ≡ yields m
      → tree_commit (git.ls_tree root path) path ≡ yields commit
      → (let new : SourceEntry = record {
        path = path;
        url = m.url;
        rev = commit;
        input_name = name;
      } in
          Has path (put path new entries) × AreRoots (put path new entries))
  unfolding Has AreRoots
  put-Roots path m commit name entries free roots e e' =
      let new : SourceEntry = record {
        path = path;
        url = m.url;
        rev = commit;
        input_name = name;
      } in
      let pinned : IsPinnedAt path new = record {
        meta = m;
        placed = refl;
        resolved = e;
        origin = refl;
        commit = e';
      } in
      let found : get path (put path new entries) ≡ some new =
        ground (arith, get-put path path new entries, text_eq_refl path) in
      (
        (new, found, pinned),
        λ k old h. elim (Bool-cases (text_eq path k)) [
          | inl same ↦
              let q : path ≡ k = (text_eq_iff path k).0 same in
              let there : get k (put path new entries) ≡ some new =
                subst (λ k. get k (put path new entries) ≡ some new) q found in
              let one : new ≡ old = some-injective _ _ (sym there ∙ h) in
              subst (IsPinnedAt k) one (subst (λ k. IsPinnedAt k new) q pinned)
          | inr other ↦ roots k old (ground (arith, get-put path k new entries, h))
        ],
      )

  add_root-Has :
      (path : Text) (entries out : Entries)
      → add_root git series target root path entries ≡ yields out
      → AreRoots entries
      → Has path out × AreRoots out
  unfolding AreRoots
  add_root-Has path entries out h roots =
      let (m, e, h') = >>=-yields (resolve git series target root path false) _ h in
      let (commit, e', h'') = >>=-yields (tree_commit (git.ls_tree root path) path) _ h' in
      let same : add_entry git series target path m.url commit entries ≡ out = cc in
      subst (λ t. Has path t × AreRoots t) same
        (elim (Option-cases (get path entries)) [
          | inr (old, taken) ↦
              subst (λ t. Has path t × AreRoots t)
                (sym (add_entry-old git series target path m.url commit entries old taken))
                (has path entries old taken (roots path old taken), roots)
          | inl free ↦
              subst (λ t. Has path t × AreRoots t)
                (sym (add_entry-new git series target path m.url commit entries free))
                (put-Roots path m commit (input_name git.sha1 series target path) entries free roots
                  e e')
        ])

  add_roots-Has :
      (paths : List Text) (entries out : Entries) (path : Text)
      → add_roots git series target root paths entries ≡ yields out
      → AreRoots entries
      → Has path entries ⊎ In path paths
      → Has path out
  unfolding add_roots
  add_roots-Has [] entries out path h roots (inl there) =
      let same : entries ≡ out = cc in rw (← same) there
  add_roots-Has [] entries out path h roots (inr m) = absurd m
  add_roots-Has (q ∷ paths) entries out path h roots at_hand =
      let (middle, e, rest) = >>=-yields (add_root git series target root q entries) _ h in
      let (here, more) = add_root-Has q entries middle e roots in
      add_roots-Has paths middle out path rest more (elim at_hand [
        | inl there ↦ inl (
            add_root-keeps git series target (Has path) (add_entry-Has path) root q entries middle e
              there)
        | inr (inl same) ↦ inl (rw same here)
        | inr (inr later) ↦ inr later
      ])

  nothing-AreRoots : AreRoots []
  unfolding AreRoots get
  nothing-AreRoots path e h = cc

  -- Every enabled path is in the graph that build_graph returns, with the url that the root
  -- repository names for the path and the commit that it holds there, whatever the later loops add.
  pub build_graph-Roots :
      (paths fetch_args : List Text) (deep : Deep) (root_entry : SourceEntry)
      (entries : List SourceEntry) (path : Text)
      → build_graph git series target root paths fetch_args deep ≡ yields (root_entry, entries)
      → In path paths
      → (e : SourceEntry) × In e entries × IsPinnedAt path e
  unfolding Has
  build_graph-Roots paths fetch_args deep root_entry entries path built m =
      let (roots, filled, (table, later, listed)) =
        build_graph-roots git series target (Has path) (add_entry-Has path) root paths fetch_args
          deep root_entry entries built in
      let (e, there, pinned) =
        later (add_roots-Has paths [] roots path filled nothing-AreRoots (inr m)) in
      (
        e,
        rw (← listed) (sorted-In compare_entry e (values table) (get-values path e table there)),
        pinned,
      )
