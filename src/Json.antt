-- ===== src/Json.antt =====
-- The values of Python's `json`, as far as the scripts look into them. Numbers are the non-negative
-- integers; the keys of an object are kept in the order of their first insertion.
use nix_strix_halo.Prelude.{
  ◌+◌, ◌&&◌, ℕ, ◌≡◌, refl, Bool, true, false, Option, none, some, List, [], ◌∷◌, arith,
  if◌then◌else◌, ◌==◌, not,
}
use nix_strix_halo.Prelude.Text.{Text, text_eq, text_eq_iff}

mutual
  pub data Json : Type 0 where
    null : Json
    bool : Bool → Json
    number : ℕ → Json
    text : Text → Json
    array : Items → Json
    object : Fields → Json

  pub data Items : Type 0 where
    nil : Items
    cons : Json → Items → Items

  pub data Fields : Type 0 where
    end : Fields
    field : Text → Json → Fields → Fields

-- d.get(k) and k in d
unfoldable pub get_field : Text → Fields → Option Json
get_field k end = none
get_field k (field j v d) = if text_eq j k then some v else get_field k d

-- d[k] = v
unfoldable pub put_field : Text → Json → Fields → Fields
put_field k v end = field k v end
put_field k v (field j w d) = if text_eq j k then field j v d else field j w (put_field k v d)

abbrev pub fields : List (Text × Json) → Fields
fields [] = end
fields ((k, v) ∷ kvs) = field k v (fields kvs)

abbrev pub texts : List Text → Items
texts [] = nil
texts (t ∷ ts) = cons (text t) (texts ts)

pub get_field-put_field :
    (k j : Text) (v : Json) (d : Fields)
    → get_field j (put_field k v d) ≡ (if text_eq k j then some v else get_field j d)
unfolding get_field put_field
get_field-put_field k j v end = refl
get_field-put_field k j v (field i w d) =
    ground (arith, text_eq_iff k j, text_eq_iff i k, text_eq_iff i j, get_field-put_field k j v d)

-- bool(value)
abbrev pub is_truthy : Json → Bool
is_truthy null = false
is_truthy (bool b) = b
is_truthy (number n) = not (n == 0)
is_truthy (text []) = false
is_truthy (text (c ∷ s)) = true
is_truthy (array nil) = false
is_truthy (array (cons v vs)) = true
is_truthy (object end) = false
is_truthy (object (field k v d)) = true

-- iter(value): the characters of a text and the keys of an object are no objects either.
abbrev pub items_of_text : Text → Items
items_of_text [] = nil
items_of_text (c ∷ s) = cons (text (c ∷ [])) (items_of_text s)

abbrev pub items_of_fields : Fields → Items
items_of_fields end = nil
items_of_fields (field k v d) = cons (text k) (items_of_fields d)

abbrev pub iterated : Json → Option Items
iterated (array vs) = some vs
iterated (text s) = some (items_of_text s)
iterated (object d) = some (items_of_fields d)
iterated _ = none

-- a == b: the order of an object's keys does not matter, and True is 1.
abbrev number_of : Bool → ℕ
number_of false = 0
number_of true = 1

abbrev count : Fields → ℕ
count end = 0
count (field k v d) = count d + 1

unfoldable mutual
  pub json_eq : Json → Json → Bool
  json_eq null null = true
  json_eq (bool b) (bool c) = number_of b == number_of c
  json_eq (bool b) (number n) = number_of b == n
  json_eq (number n) (bool b) = n == number_of b
  json_eq (number n) (number m) = n == m
  json_eq (text s) (text t) = text_eq s t
  json_eq (array vs) (array ws) = items_eq vs ws
  json_eq (object d) (object e) = (count d == count e) && fields_in d e
  json_eq _ _ = false

  pub items_eq : Items → Items → Bool
  items_eq nil nil = true
  items_eq (cons v vs) (cons w ws) = json_eq v w && items_eq vs ws
  items_eq _ _ = false

  pub fields_in : Fields → Fields → Bool
  fields_in end e = true
  fields_in (field k v d) e =
      (elim (get_field k e) [ none ↦ false | some w ↦ json_eq v w ]) && fields_in d e
