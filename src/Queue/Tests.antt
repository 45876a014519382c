-- ===== src/Queue/Tests.antt =====
-- Runs of the queue, and its theorems at a queue that goes round the end of its storage.
use egui.Prelude.{◌≡◌, refl, some, [], ◌∷◌, arith, take, drop}
use egui.Queue.{Queue, read, write, read_try, seek, begin, gap, put}
use egui.Queue.Inv.{IsValid, contents}
use egui.Queue.Refine.{Took, read-Took}
use egui.Queue.Peek.{read_try-all_or_nothing}
use egui.Queue.Write.{Wrote, write-Wrote}

-- 8, 9 and then 7, round the end of the storage.
abbrev wrapped : Queue
wrapped = record { pos = 2; len = 3; size = 4; bytes = 7 ∷ 0 ∷ 8 ∷ 9 ∷ [] }

wrapped-IsValid : IsValid wrapped
wrapped-IsValid = omega arith

contents-wrapped : contents wrapped ≡ 8 ∷ 9 ∷ 7 ∷ []
contents-wrapped = refl

read_runs : (read wrapped 3).1 ≡ 8 ∷ 9 ∷ 7 ∷ []
unfolding read
read_runs = refl

write_runs :
    write wrapped (5 ∷ 6 ∷ []) 2 ≡ some (1, record wrapped { len = 4; bytes = 7 ∷ 5 ∷ 8 ∷ 9 ∷ [] })
unfolding write begin gap put
write_runs = refl

-- A read that stops at the end of the storage leaves `pos` there.
pos_at_end : (read (record wrapped { pos = 2; len = 3 }) 2).2.pos ≡ 4
unfolding read
pos_at_end = refl

seek_runs : seek wrapped 1 2 ≡ (2, 9 ∷ 7 ∷ [])
unfolding seek
seek_runs = refl

write-Wrote_example :
    (q : Queue) × (write wrapped (5 ∷ 6 ∷ []) 2 ≡ some (1, q)) × Wrote wrapped (5 ∷ []) q
write-Wrote_example = write-Wrote wrapped-IsValid (5 ∷ 6 ∷ []) 2 (omega arith)

read-Took_example :
    let (count, t, q) = read wrapped 3 in (t ≡ 8 ∷ 9 ∷ 7 ∷ []) × Took 3 wrapped count q
read-Took_example = read-Took wrapped-IsValid 3

read_try-all_or_nothing_example :
    let (count, t, q) = read_try wrapped 2 in
    (t ≡ take count (contents wrapped))
    × (contents q ≡ drop count (contents wrapped))
    × (count ≡ 2)
    × IsValid q
read_try-all_or_nothing_example = read_try-all_or_nothing wrapped-IsValid 2
