-- ===== src/Tests/Rings.antt =====
-- The theorems on rings at concrete inputs: four nodes added one after another.
use linux_sna.Base.{[], ◌∷◌, some, ◌≡◌, refl, arith, if◌then◌else◌, ◌==◌, inl}
use linux_sna.Ring.{
  Links, record_list_add, record_list_remove, destroy_from, list_init_head, list_add_tail, list_del,
}
use linux_sna.Ring.Circle.{Ring, record_list_add-Ring}
use linux_sna.Ring.Removal.{record_list_remove-Ring}
use linux_sna.Ring.Destruction.{destroy_from-Ring}
use linux_sna.Ring.Kernel.{list_add_tail-Ring, list_del-Ring}

abbrev blank : Links
blank = record { next = λ p. 0; prev = λ p. 0 }

abbrev one : Links
one = list_init_head 1 blank

one-Ring : Ring one 1 []
one-Ring = ((refl, refl), (tt, tt))

abbrev two : Links
two = list_add_tail 2 1 one

two-Ring : Ring two 1 (2 ∷ [])
two-Ring = list_add_tail-Ring one 1 2 [] one-Ring (refl, tt)

abbrev three : Links
three = list_add_tail 3 1 two

three-Ring : Ring three 1 (2 ∷ 3 ∷ [])
three-Ring = list_add_tail-Ring two 1 3 (2 ∷ []) two-Ring (refl, (refl, tt))

record_list_add_example :
    ((record_list_add (some 1) 4 three).0 ≡ 1)
    × Ring (record_list_add (some 1) 4 three).1 1 (2 ∷ 3 ∷ 4 ∷ [])
record_list_add_example =
    record_list_add-Ring three 1 4 (2 ∷ 3 ∷ []) three-Ring (refl, (refl, (refl, tt)))

record_list_remove_example :
    ((record_list_remove (some 1) 1 three).0 ≡ some (if 1 == 1 then 2 else 1))
    × Ring (record_list_remove (some 1) 1 three).1 2 (3 ∷ [])
record_list_remove_example = record_list_remove-Ring three 1 1 2 (3 ∷ []) three-Ring (inl refl)

destroy_from_example : destroy_from 1 three 3 1 ≡ some (1 ∷ 2 ∷ 3 ∷ [])
destroy_from_example = destroy_from-Ring three 1 (2 ∷ 3 ∷ []) 3 three-Ring (omega arith)

list_del_example : Ring (list_del 2 three) 1 (3 ∷ [])
list_del_example = list_del-Ring three 1 [] 2 (3 ∷ []) three-Ring
