-- ===== src/Config/Table.antt =====
-- The table as a map from section and key to value.
use ntap_a.Base.{
  ℕ, ◌≡◌, refl, [], ◌∷◌, ◌++◌, true, false, not, ◌&&◌, Option, none, some, arith, if◌then◌else◌,
  ltb, length, Bool-cases, Option-cases, inl, inr, Ensures, Ensures-elim,
}
use ntap_a.Base.Words.{Bytes}
use ntap_a.Base.Texts.{codes, bytes_equal, bytes_equal_iff}
use ntap_a.Base.Results.{Result, gives, ◌>>◌, check, Gives, Gives->>=, Gives-check}
use ntap_a.Wire.Auth.{config_value_max}
use ntap_a.Config.{
  Config, ConfigEntry, is_entry, config_get, replace, new_entry, place, set_entry,
  config_max_entries, config_section_max, config_key_max, fits_in, is_empty, at_line,
}

-- An update of a map at one place.
abbrev pub updated : Bytes → Bytes → Bytes → Bytes → Bytes → Option Bytes → Option Bytes
updated s k value s' k' old = if bytes_equal s s' && bytes_equal k k' then some value else old

same-place :
    (s k s' k' : Bytes) → (bytes_equal s s' && bytes_equal k k') ≡ true → (s ≡ s') × (k ≡ k')
same-place s k s' k' h =
    ((bytes_equal_iff s s').0 (ground (arith, h)), (bytes_equal_iff k k').0 (ground (arith, h)))

-- An entry of this place is one of another only where the places are the same.
is_entry-place :
    (s k s' k' : Bytes) (e : ConfigEntry)
    → is_entry s k e ≡ true
    → is_entry s' k' e ≡ (bytes_equal s s' && bytes_equal k k')
is_entry-place s k s' k' e h = let (es, ek) = same-place e.section e.key s k h in rw (es, ek) refl

other-place :
    (s k s' k' : Bytes) (e : ConfigEntry)
    → is_entry s k e ≡ false
    → is_entry s' k' e ≡ true
    → (bytes_equal s s' && bytes_equal k k') ≡ false
other-place s k s' k' e miss hit = elim (Bool-cases (bytes_equal s s' && bytes_equal k k')) [
  | inr f ↦ f
  | inl t ↦
      let (es, ek) = same-place s k s' k' t in
      let both : is_entry s k e ≡ true = rw (es, ek) hit in absurd (ground (arith, both, miss))
]

abbrev pub Updates : Bytes → Bytes → Bytes → Bytes → Bytes → Config → Config → Type 0
Updates s k value s' k' cfg cfg' =
    config_get cfg' s' k' ≡ updated s k value s' k' (config_get cfg s' k')

overwritten :
    (s k s' k' value old : Bytes) (rest : Option Bytes)
    → (if bytes_equal s s' && bytes_equal k k' then some value else rest)
      ≡ updated s k value s' k' (if bytes_equal s s' && bytes_equal k k' then some old else rest)
overwritten s k s' k' value old rest = elim (Bool-cases (bytes_equal s s' && bytes_equal k k')) [
  | inl t ↦ rw t refl
  | inr f ↦ rw f refl
]

-- The old value is overwritten where the entry is, and nowhere else; without an entry there is no value.
replace-Updates :
    (s k value s' k' : Bytes) (cfg : Config)
    → Ensures (Updates s k value s' k' cfg) (replace s k value cfg)
unfolding replace config_get
replace-Updates s k value s' k' [] = tt
replace-Updates s k value s' k' (e ∷ es) = elim (Bool-cases (is_entry s k e)) [
  | inl hit ↦
      rw (hit, is_entry-place s k s' k' e hit)
        (overwritten s k s' k' value e.value (config_get es s' k'))
  | inr miss ↦ elim (Option-cases (replace s k value es)) [
    | inl none' ↦ rw (miss, none') tt
    | inr (es', e') ↦
        let rest =
          Ensures-elim (Updates s k value s' k' es) (replace s k value es)
            (replace-Updates s k value s' k' es) e' in
        elim (Bool-cases (is_entry s' k' e)) [
          | inl hit ↦ rw (miss, e', hit, other-place s k s' k' e miss hit) refl
          | inr miss' ↦ rw (miss, e', miss') rest
        ]
  ]
]

replace-none :
    (s k value : Bytes) (cfg : Config) → replace s k value cfg ≡ none → config_get cfg s k ≡ none
unfolding replace config_get
replace-none s k value [] h = refl
replace-none s k value (e ∷ es) h = elim (Bool-cases (is_entry s k e)) [
  | inl hit ↦ absurd (ground (arith, h, hit))
  | inr miss ↦ elim (Option-cases (replace s k value es)) [
    | inl none' ↦ rw miss (replace-none s k value es none')
    | inr (es', e') ↦ absurd (ground (arith, h, miss, e'))
  ]
]

append-Updates :
    (s k value s' k' : Bytes) (cfg : Config)
    → config_get cfg s k ≡ none
    → Updates s k value s' k' cfg (cfg ++ (new_entry s k value ∷ []))
unfolding config_get
append-Updates s k value s' k' [] h = refl
append-Updates s k value s' k' (e ∷ es) h = elim (Bool-cases (is_entry s k e)) [
  | inl hit ↦ absurd (ground (arith, h, hit))
  | inr miss ↦
      let rest = append-Updates s k value s' k' es (ground (arith, h, miss)) in
      elim (Bool-cases (is_entry s' k' e)) [
        | inl hit ↦ rw (hit, other-place s k s' k' e miss hit) refl
        | inr miss' ↦ rw miss' rest
      ]
]

place-Updates :
    (n : ℕ) (s k value s' k' : Bytes) (cfg : Config) (found : Option Config)
    → replace s k value cfg ≡ found
    → Gives (Updates s k value s' k' cfg) (place n s k value cfg found)
place-Updates n s k value s' k' cfg (some cfg') e =
    Ensures-elim (Updates s k value s' k' cfg) (replace s k value cfg)
      (replace-Updates s k value s' k' cfg) e
place-Updates n s k value s' k' cfg none e =
    let U = Updates s k value s' k' cfg in
    let added : Result Config = gives (cfg ++ (new_entry s k value ∷ [])) in
    let fits = fits_in config_section_max s && fits_in config_key_max k in
    Gives-check U (codes "too many config entries") (ltb (length cfg) config_max_entries)
      (check (at_line (codes "section/key too long") n) fits >> added)
      λ room.
        Gives-check U (at_line (codes "section/key too long") n) fits added
          λ short. append-Updates s k value s' k' cfg (replace-none s k value cfg e)

-- Setting an entry changes the value of its key, and of no other.
pub set_entry-Updates :
    (n : ℕ) (s k value s' k' : Bytes) (cfg : Config)
    → Gives (Updates s k value s' k' cfg) (set_entry n s k value cfg)
unfolding set_entry
set_entry-Updates n s k value s' k' cfg =
    let U = Updates s k value s' k' cfg in
    Gives-check U (at_line (codes "empty key") n) (not (is_empty k)) _ λ given.
      Gives->>= U U (place n s k value cfg (replace s k value cfg)) _
        (place-Updates n s k value s' k' cfg (replace s k value cfg) refl)
        λ cfg' u.
          Gives-check U (at_line (codes "value too long") n) (fits_in config_value_max value)
            (gives cfg') λ short. u
