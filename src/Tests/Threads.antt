-- ===== src/Tests/Threads.antt =====
-- The lock under two goroutines: 0 puts a key while 1 asks for it.
use vcd_csi.Prelude.Dict.{lookup, insert, delete}
use vcd_csi.Prelude.{true, ◌+◌, ◌≤◌, [], ◌∷◌, ◌⊎◌, refl, some, arith}
use vcd_csi.Locker.{put}
use vcd_csi.Locker.Threads.{
  idle, writing, waiting, reading, erasing, leaving, System, move, init, begin_put, end_put, ask,
  enter, hit, erase, Reach, start, later,
}
use vcd_csi.Locker.Threads.Laws.{IsPut, count, stored, Reach-Touches, Reach-count}
use vcd_csi.Locker.Threads.Atomic.{IsAtomic, Step-IsAtomic}

-- 1 has the mutex and is about to read, and 0 is about to write.
abbrev racing : System
racing =
    move 0 (writing "data")
      (move 1 (reading "data") (record (move 1 (waiting "data") init) { holder = some 1 }))

race : Reach racing
race =
    later {t = 0} (later {t = 1} (later {t = 1} start (ask "data" refl)) (enter "data" refl refl))
      (begin_put "data" refl)

Reach-Touches_example : IsPut (racing.threads 0) ⊎ IsPut (racing.threads 1)
Reach-Touches_example = Reach-Touches {t = 0} {u = 1} race (λ e. absurd (omega arith)) tt tt

abbrev given : System
given = move 0 idle (record racing { lock = put "data" racing.lock; given = "data" ∷ [] })

Reach-count_example : count "data" given.taken + stored "data" given.lock ≤ count "data" given.given
Reach-count_example = Reach-count "data" (later {t = 0} race (end_put "data" refl))

abbrev put_before : System
put_before = move 0 idle (record (move 0 (writing "data") init) {
  lock = record { storage = ("data", true) ∷ [] };
  given = "data" ∷ [];
})

-- 0 has put the key, and 1 has found it and is about to remove it.
abbrev found : System
found =
    move 1 (erasing "data")
      (move 1 (reading "data") (record (move 1 (waiting "data") put_before) { holder = some 1 }))

finding : Reach found
unfolding put insert lookup
finding =
    later {t = 1}
      (later {t = 1}
        (later {t = 1}
          (later {t = 0} (later {t = 0} start (begin_put "data" refl)) (end_put "data" refl))
          (ask "data" refl))
        (enter "data" refl refl))
      (hit "data" true refl refl)

abbrev removed : System
removed =
    move 1 (leaving true) (record found { lock = record { storage = [] }; taken = "data" ∷ [] })

Step-IsAtomic_example : IsAtomic found 1 removed
unfolding delete
Step-IsAtomic_example = Step-IsAtomic finding (erase "data" refl)
