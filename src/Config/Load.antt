-- ===== src/Config/Load.antt =====
-- That a loaded file gives to every key the last value that the file has for it.
use ntap_a.Base.{
  ℕ, suc, ◌≡◌, refl, sym, ap, ◌∙◌, List, [], ◌∷◌, map, not, ◌&&◌, Option, none, subst,
}
use ntap_a.Base.Words.{Bytes}
use ntap_a.Base.Texts.{codes}
use ntap_a.Base.Results.{gives, Gives, Gives->>=, Gives-check}
use ntap_a.Wire.{c_string}
use ntap_a.Config.{
  Config, Line, config_get, set_entry, load_line, load_lines, parse_line, fgets_lines, fgets_room,
  config_load, is_empty, fits_in, at_line, config_section_max,
}
use ntap_a.Config.Table.{updated, Updates, set_entry-Updates}

-- The lines of a file.
abbrev pub lines_of : Bytes → List Line
lines_of file = map (λ l. parse_line (c_string l)) (fgets_lines fgets_room file)

-- What a key of a section has behind some lines: the value of its last pair, or what it had before.
abbrev pub value_at : Bytes → Bytes → Bytes → Option Bytes → List Line → Option Bytes
value_at s k current old [] = old
value_at s k current old (Line.blank ∷ ls) = value_at s k current old ls
value_at s k current old (Line.bad_section ∷ ls) = value_at s k current old ls
value_at s k current old (Line.bad_pair ∷ ls) = value_at s k current old ls
value_at s k current old (Line.in_section name ∷ ls) = value_at s k name old ls
value_at s k current old (Line.pair key value ∷ ls) =
    value_at s k current (updated current key value s k old) ls

-- The table holds, for this key, what the lines up to here tell.
abbrev Holds : Bytes → Bytes → Option Bytes → Bytes × Config → Type 0
Holds s k v (current, cfg) = config_get cfg s k ≡ v

load_lines-Holds :
    (s k : Bytes) (n : ℕ) (ls : List Line) (current : Bytes) (cfg : Config) (old : Option Bytes)
    → config_get cfg s k ≡ old
    → Gives (Holds s k (value_at s k current old ls)) (load_lines n ls (current, cfg))
unfolding load_lines load_line
load_lines-Holds s k n [] current cfg old h = h
load_lines-Holds s k n (Line.blank ∷ ls) current cfg old h =
    load_lines-Holds s k (suc n) ls current cfg old h
load_lines-Holds s k n (Line.bad_section ∷ ls) current cfg old h = tt
load_lines-Holds s k n (Line.bad_pair ∷ ls) current cfg old h = tt
load_lines-Holds s k n (Line.in_section name ∷ ls) current cfg old h =
    let H = Holds s k (value_at s k name old ls) in
    let Is : Bytes × Config → Type 0 = λ st. st ≡ (name, cfg) in
    Gives->>= Is H (load_line (suc n) (Line.in_section name) (current, cfg)) _
      (Gives-check Is (at_line (codes "invalid section") (suc n))
        (fits_in config_section_max name && not (is_empty name)) (gives (name, cfg)) λ ok. refl)
      (λ (name', cfg') e.
        subst (λ st. Gives H (load_lines (suc n) ls st)) (sym e)
          (load_lines-Holds s k (suc n) ls name cfg old h))
load_lines-Holds s k n (Line.pair key value ∷ ls) current cfg old h =
    let next = updated current key value s k old in
    let H = Holds s k (value_at s k current next ls) in
    let Is : Bytes × Config → Type 0 = λ (c, cfg'). (c ≡ current) × (config_get cfg' s k ≡ next) in
    Gives->>= Is H (load_line (suc n) (Line.pair key value) (current, cfg)) _
      (Gives-check Is (at_line (codes "invalid key/value") (suc n)) (not (is_empty current)) _ λ ok.
        Gives->>= (Updates current key value s k cfg) Is (set_entry (suc n) current key value cfg) _
          (set_entry-Updates (suc n) current key value s k cfg)
          (λ cfg' u. (refl, u ∙ ap (updated current key value s k) h)))
      (λ (c, cfg') (e, u).
        subst (λ x. Gives H (load_lines (suc n) ls (x, cfg'))) (sym e)
          (load_lines-Holds s k (suc n) ls current cfg' next u))

-- A file that is loaded gives, for each key of each section, the value of the last line that has one.
pub config_load-value_at :
    (file s k : Bytes)
    → Gives (λ cfg. config_get cfg s k ≡ value_at s k [] none (lines_of file)) (config_load file)
unfolding config_load config_get
config_load-value_at file s k =
    Gives->>= (Holds s k (value_at s k [] none (lines_of file))) _
      (load_lines 0 (lines_of file) ([], [])) _
      (load_lines-Holds s k 0 (lines_of file) [] [] none refl) (λ (current, cfg) h. h)
