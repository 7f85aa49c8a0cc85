-- ===== src/Wheels/Update/Pins.antt =====
-- Which package versions the device wheels are held to.
use nix_strix_halo.Prelude.{
  ◌≡◌, refl, sym, ap, ◌∙◌, inl, inr, true, false, Option, none, some, List, [], ◌∷◌, arith, In,
  Bool-cases,
}
use nix_strix_halo.Prelude.Text.{Text, text_eq, text_eq_iff, starts_with}
use nix_strix_halo.Prelude.Dict.{Dict, get, get-set_default}
use nix_strix_halo.Wheels.{normalize_project}
use nix_strix_halo.Wheels.Update.{pin_device, pin_devices, torch_device, torchvision_device}

-- A version that is there already is kept.
pin_device-keeps :
    (prefix : Text) (version : Option Text) (n k : Text) (versions : Dict Text) {v : Text}
    → get k versions ≡ some v
    → get k (pin_device prefix version n versions) ≡ some v
pin_device-keeps prefix none n k versions h = h
pin_device-keeps prefix (some w) n k versions h = ground (arith, get-set_default n k w versions)

-- The pin gives no version to other names.
pin_device-other :
    (prefix : Text) (version : Option Text) (n k : Text) (versions : Dict Text)
    → text_eq n k ≡ false
    → get k (pin_device prefix version n versions) ≡ get k versions
pin_device-other prefix none n k versions h = refl
pin_device-other prefix (some w) n k versions h = ground (arith, get-set_default n k w versions)

pin_device-sets :
    (prefix v n : Text) (versions : Dict Text)
    → starts_with prefix n ≡ true
    → get n versions ≡ none
    → get n (pin_device prefix (some v) n versions) ≡ some v
pin_device-sets prefix v n versions h k =
    ground (arith, get-set_default n n v versions, (text_eq_iff n n).1 refl)

module _ (torch torchvision : Option Text) where
  pin_devices-keeps :
      (projects : List Text) (versions : Dict Text) (k : Text) {v : Text}
      → get k versions ≡ some v
      → get k (pin_devices torch torchvision projects versions) ≡ some v
  unfolding pin_devices
  pin_devices-keeps [] versions k h = h
  pin_devices-keeps (p ∷ ps) versions k h =
      let n = normalize_project p in
      pin_devices-keeps ps _ k (
        pin_device-keeps torchvision_device torchvision n k _
          (pin_device-keeps torch_device torch n k versions h))

  pin_devices-cons :
      (p : Text) (ps : List Text) (versions : Dict Text) (k : Text) {v : Text}
      → get k (pin_device torch_device torch (normalize_project p) versions) ≡ some v
      → get k (pin_devices torch torchvision (p ∷ ps) versions) ≡ some v
  unfolding pin_devices
  pin_devices-cons p ps versions k h =
      pin_devices-keeps ps _ k
        (pin_device-keeps torchvision_device torchvision (normalize_project p) k _ h)

module _ (torchvision : Option Text) (version project : Text) where
  pin_devices-sets :
      (projects : List Text) (versions : Dict Text)
      → In project projects
      → starts_with torch_device (normalize_project project) ≡ true
      → get (normalize_project project) versions ≡ none
      → get (normalize_project project) (pin_devices (some version) torchvision projects versions)
        ≡ some version
  unfolding pin_devices
  pin_devices-sets [] versions m h k = absurd m
  pin_devices-sets (p ∷ ps) versions m h k =
      let n = normalize_project project in
      let q = normalize_project p in
      elim (Bool-cases (text_eq q n)) [
        | inl e ↦
            let same : q ≡ n = (text_eq_iff q n).0 e in
            pin_devices-cons (some version) torchvision p ps versions n
              (rw same (pin_device-sets torch_device version n versions h k))
        | inr e ↦ elim m [
          | inl here ↦ cc (e, (text_eq_iff q n).1 (ap normalize_project (sym here)))
          | inr later ↦ pin_devices-sets ps _ later h (
              pin_device-other torchvision_device torchvision q n _ e
              ∙ (pin_device-other torch_device (some version) q n versions e ∙ k))
        ]
      ]

  -- The loop that pins the device wheels gives a torch device wheel among the projects the version
  -- of torch, where one is given, unless a version for it by name is there already, which it keeps.
  pub pin_devices-torch :
      (projects : List Text) (versions : Dict Text)
      → In project projects
      → starts_with torch_device (normalize_project project) ≡ true
      → get (normalize_project project) (pin_devices (some version) torchvision projects versions)
        ≡ (elim (get (normalize_project project) versions) [
          | none ↦ some version
          | some v ↦ some v
        ])
  pin_devices-torch projects versions m h = by_case (get (normalize_project project) versions) refl
    where
      by_case :
          (o : Option Text)
          → get (normalize_project project) versions ≡ o
          → get
              (normalize_project project)
              (pin_devices (some version) torchvision projects versions)
            ≡ (elim o [ none ↦ some version | some v ↦ some v ])
      by_case none e = pin_devices-sets projects versions m h e
      by_case (some v) e =
          pin_devices-keeps (some version) torchvision projects versions (normalize_project project)
            e
