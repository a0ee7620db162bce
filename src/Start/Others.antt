-- ===== src/Start/Others.antt =====
-- The replicas that a server sets connections up to (`main` of chat_system/server.go).
use selected_course_projects.Prelude.{
  zero, suc, ◌≡◌, refl, none, some, List, [], ◌∷◌, ◌&&◌, arith, if◌then◌else◌, Bool,
}
use selected_course_projects.Prelude.Int.{ℤ, pos, negsuc, eqb_ℤ, leb_ℤ, int_eq}
use selected_course_projects.Prelude.Number.{itoa}
use selected_course_projects.Prelude.Text.{Str}
use selected_course_projects.Start.{all_servers, other_servers, fill_temp, set_elem?}

-- the names of all but one of some servers
unfoldable pub without : (me : ℤ) → List ℤ → List Str
without me [] = []
without me (i ∷ rest) = let ws = without me rest in if eqb_ℤ i me then ws else itoa i ∷ ws

abbrev pub is_server : ℤ → Bool
is_server me = leb_ℤ (pos 1) me && leb_ℤ me (pos 5)

-- A server with a number from 1 to 5 sets connections up to all the others, once to each and in order;
-- with any other number the start panics.
pub other_servers-without :
    (me : ℤ) → other_servers me ≡ (if is_server me then some (without me all_servers) else none)
unfolding other_servers fill_temp without set_elem?
other_servers-without (pos zero) = refl
other_servers-without (pos (suc zero)) = refl
other_servers-without (pos (suc (suc zero))) = refl
other_servers-without (pos (suc (suc (suc zero)))) = refl
other_servers-without (pos (suc (suc (suc (suc zero))))) = refl
other_servers-without (pos (suc (suc (suc (suc (suc zero)))))) = refl
other_servers-without (pos (suc (suc (suc (suc (suc (suc n))))))) = ground arith
other_servers-without (negsuc n) = ground arith
