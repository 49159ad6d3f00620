-- ===== src/Examples/Installed.antt =====
-- A file that the program installs and its watcher sees: crates/rowd-core/src/internal_writes.rs.
use rowd.Base.{
  Text, codes, lookup, text_eq, insert, text_lt, some, true, false, [], ◌∷◌, ◌≡◌, refl, arith,
}
use rowd.Model.{Manifest, entry_eq}
use rowd.Writes.{Expected, Registry, register, complete, abandon, retain, missing, matches}
use rowd.Writes.Honesty.{matches-Matched, matches-complete}
use rowd.Examples.Rounds.{file}

abbrev disk : Manifest
disk = (codes "d/a", file b'2') ∷ []

-- The directory `d` comes into being with the file.
abbrev writes : Registry
writes = complete 102 (codes "d/a") (register 100 (codes "d/a") (codes "d" ∷ []) (file b'2') [])

created_parents : missing (λ p. true) (λ p. false) (codes "d" ∷ []) ≡ codes "d" ∷ []
unfolding missing
created_parents = refl

quiet : (matches 110 (codes "d") true writes writes disk).0 ≡ true
unfolding matches complete register lookup text_eq insert text_lt entry_eq
quiet = refl

matches-Matched_example :
    (target : Text) × (e : Expected) × (lookup target writes ≡ some e)
    × (e.finished ≡ true)
    × (lookup target disk ≡ some e.entry)
    × (true ≡ false → target ≡ codes "d")
matches-Matched_example = matches-Matched 110 (codes "d") true writes writes disk quiet

matches-complete_example :
    ((matches 110 (codes "d/a") false writes (retain 110 writes) disk).0 ≡ true)
    × ((waited : Registry)
        → (matches 110
            (codes "d/a")
            false
            (abandon (codes "d/a") (register 100 (codes "d/a") (codes "d" ∷ []) (file b'2') []))
            waited
            disk).0
          ≡ false)
unfolding lookup text_eq
matches-complete_example =
    matches-complete 100 102 110 (codes "d/a") (codes "d" ∷ []) (file b'2') [] disk refl
      (omega arith)
