-- ===== src/Examples/TimedCache.antt =====
-- A cache that keeps its entries for ten nanoseconds.
use termlm.Base.{ℕ, ◌-◌, none, some, [], ◌∷◌, leb, if◌then◌else◌, ◌≡◌, refl, arith}
use termlm.Base.Text.{codes, eq_text}
use termlm.Index.Names.{find}
use termlm.TimedCache.{TimedCache, new, fresh, get, insert, view, TimedCache-refines}

abbrev held : TimedCache ℕ
held = record { entries = (codes "ls", (5, 1)) ∷ []; ttl = 10 }

expired : (get 16 (codes "ls") held).0 ≡ none
unfolding get fresh find eq_text
expired = refl

TimedCache-refines_example :
    (view (new {V = ℕ} 10) 9 (codes "ls") ≡ none)
    × ((get 7 (codes "pwd") held).0 ≡ view held 7 (codes "pwd"))
    × (view (get 7 (codes "pwd") held).1 9 (codes "ls") ≡ view held 9 (codes "ls"))
    × (view (insert 7 (codes "pwd") 2 held) 9 (codes "ls") ≡ (
        if eq_text (codes "pwd") (codes "ls")
        then (if leb (9 - 7) 10 then some 2 else none)
        else view held 9 (codes "ls")))
TimedCache-refines_example =
    TimedCache-refines 7 9 10 (codes "pwd") (codes "ls") 2 held (omega arith)
