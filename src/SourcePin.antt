-- ===== src/SourcePin.antt =====
-- update-rocm-source.py: the pin of TheRock's revision and of the policy by which its sources are
-- fetched.
pub mod Pin
use nix_strix_halo.Prelude.{
  Bool, true, false, Option, none, some, List, [], ◌∷◌, ◌++◌, if◌then◌else◌, keep,
}
use nix_strix_halo.Prelude.Text.{Text, codes, split, partition, strip}
use nix_strix_halo.Json.{
  Json, text, array, object, Items, nil, cons, Fields, end, fields, texts, get_field, put_field,
}
use nix_strix_halo.Version.{major_minor}
use nix_strix_halo.Tree.Git.{
  Lookup, found, absent, malformed, find_ref, peeled, splitlines, has_text,
}
use nix_strix_halo.Tree.Graph.{nonblank}

abbrev pub default_series : Text
default_series = codes "10.0"

-- A deep nested submodule: its parent and the paths below.
pub record Deep : Type 0 where
  pub parent : Text
  pub paths : List Text

-- `none` is the ValueError, which argparse makes a usage error.
unfoldable pub parse_deep_nested_submodule : Text → Option Deep
parse_deep_nested_submodule value =
    let p = partition b':' value in
    if p.found
    then some (record { parent = p.head; paths = nonblank (split b',' p.tail) })
    else none

-- How a run ends without writing: the SystemExits of `git_rev`, or another exception.
pub data Stop : Type 0 where
  no_revision : Text → Stop
  exception : Stop

pub data Step {ℓ} (A : Type ℓ) : Type ℓ where
  stop : Stop → Step A
  go : A → Step A

infixl 5 ◌>>=◌
abbrev pub ◌>>=◌ {ℓ κ} : {A : Type ℓ} {B : Type κ} → Step A → (A → Step B) → Step B
stop reason >>= next = stop reason
go value >>= next = next value

abbrev pub exact_rev : Text → Lookup → Step Text
exact_rev ref (found rev) = go rev
exact_rev ref absent = stop (no_revision ref)
exact_rev ref malformed = stop exception

abbrev pub rev_of : Text → List Text → Lookup → Step Text
rev_of ref lines (found rev) = go rev
rev_of ref lines absent = exact_rev ref (find_ref ref lines)
rev_of ref lines malformed = stop exception

abbrev pub rev_among : Text → List Text → Step Text
rev_among ref [] = stop (no_revision ref)
rev_among ref (line ∷ lines) = rev_of ref (line ∷ lines) (find_ref (peeled ref) (line ∷ lines))

-- `output` is what `git ls-remote` prints for the ref and its peeled form.
unfoldable pub git_rev : Text → Text → Step Text
git_rev output ref = rev_among ref (keep (λ l. has_text (strip l)) (splitlines output))

abbrev pub load_sources : Option Fields → Fields
load_sources none = end
load_sources (some sources) = sources

-- value.get(key, {}); `none` is the AttributeError of a value that is no object.
abbrev pub child : Text → Json → Option Json
child key (object d) = elim (get_field key d) [ none ↦ some (object end) | some v ↦ some v ]
child key _ = none

-- sources.get("targets", {}).get(target, {})
abbrev pub current_of : Fields → Text → Option Json
current_of sources target = elim (child (codes "targets") (object sources)) [
  | none ↦ none
  | some targets ↦ child target targets
]

-- The version of a pin, where it is a text; re.match raises a TypeError on other values.
abbrev pub version_in : Option Json → Option Text
version_in (some (object pin)) = elim (get_field (codes "version") pin) [
  | none ↦ some []
  | some (text version) ↦ some version
  | some other ↦ none
]
version_in _ = none

abbrev pub series_in : Option Text → Option Text
series_in none = none
series_in (some version) = elim (major_minor version) [ none ↦ none | some m ↦ some m.matched ]

-- AttributeError and TypeError are caught.
unfoldable pub pinned_series : Fields → Text → Option Text
pinned_series sources target = series_in (version_in (current_of sources target))

pub record Args : Type 0 where
  pub url : Text
  pub series : Option Text
  pub ref : Option Text
  pub rev : Option Text
  pub target : Text
  pub version : Option Text
  pub fetch_args : Option (List Text)
  pub deep_nested_submodules : Option (List Deep)

abbrev pub deep_items : List Deep → Items
deep_items [] = nil
deep_items (d ∷ ds) =
    cons
      (object
        (fields ((codes "parent", text d.parent) ∷ (codes "paths", array (texts d.paths)) ∷ [])))
      (deep_items ds)

-- current.get(key, [])
abbrev pub policy_of : Text → Option Json → Step Json
policy_of key (some (object current)) = elim (get_field key current) [
  | none ↦ go (array nil)
  | some v ↦ go v
]
policy_of key _ = stop exception

abbrev pub current_step : Option Json → Step Json
current_step none = stop exception
current_step (some current) = go current

abbrev pub fetch_args_of : Option (List Text) → Json → Step Json
fetch_args_of (some fetch_args) current = go (array (texts fetch_args))
fetch_args_of none current = policy_of (codes "fetchArgs") (some current)

abbrev pub deep_of : Option (List Deep) → Json → Step Json
deep_of (some deep) current = go (array (deep_items deep))
deep_of none current = policy_of (codes "deepNestedSubmodules") (some current)

unfoldable pub source_fetch_policy :
    Fields → Text → Option (List Text) → Option (List Deep) → Step (Json × Json)
source_fetch_policy sources target fetch_args deep_nested_submodules = do
  current ← current_step (current_of sources target)
  args ← fetch_args_of fetch_args current
  deep ← deep_of deep_nested_submodules current
  go (args, deep)

-- a or b
abbrev pub or_else : Option Text → Text → Text
or_else none b = b
or_else (some []) b = b
or_else (some (c ∷ s)) b = c ∷ s

unfoldable pub series_of : Args → Fields → Text
series_of args sources =
    or_else args.series (or_else (pinned_series sources args.target) default_series)

abbrev pub ref_of : Args → Text → Text
ref_of args series = or_else args.ref (codes "refs/heads/release/therock-" ++ series)

abbrev pub rev_step : (Text → Text → Text) → Args → Text → Step Text
rev_step ls_remote args ref = elim args.rev [
  | some (c ∷ s) ↦ go (c ∷ s)
  | _ ↦ git_rev (ls_remote args.url ref) ref
]

abbrev pub pin_fields : Args → Text → Text → Text → Json × Json → Text → Fields
pin_fields args ref rev version (fetch_args, deep) now = fields (
    (codes "url", text args.url)
    ∷ (codes "ref", text ref)
    ∷ (codes "rev", text rev)
    ∷ (codes "version", text version)
    ∷ (codes "fetchArgs", fetch_args)
    ∷ (codes "deepNestedSubmodules", deep)
    ∷ (codes "updated", text now)
    ∷ [])

-- targets = sources.setdefault("targets", {}); targets[target] = pin
abbrev pub store_in : Fields → Text → Json → Option Json → Step Fields
store_in sources target pin none =
    go (put_field (codes "targets") (object (put_field target pin end)) sources)
store_in sources target pin (some (object targets)) =
    go (put_field (codes "targets") (object (put_field target pin targets)) sources)
store_in sources target pin (some other) = stop exception

-- `ls_remote` gives what git prints for an url and a ref, and `now` is the clock's date.
unfoldable pub main : (Text → Text → Text) → Text → Args → Option Fields → Step Fields
main ls_remote now args file = do
  let sources = load_sources file
  let series = series_of args sources
  let ref = ref_of args series
  rev ← rev_step ls_remote args ref
  policy ← source_fetch_policy sources args.target args.fetch_args args.deep_nested_submodules
  store_in sources args.target
      (object (pin_fields args ref rev (or_else args.version series) policy now))
      (get_field (codes "targets") sources)
