-- ===== src/Groups/Listed.antt =====
-- The participants of a server and their counts.
use mathlib.Core.Option.{some-injective}
use selected_course_projects.Prelude.{
  ◌≡◌, refl, sym, subst, ap, ◌∙◌, Bool, true, false, Option, none, some, List, [], ◌∷◌, ◌++◌, arith,
  inl, inr, if◌then◌else◌, Bool-cases, ==_iff,
}
use selected_course_projects.Prelude.Int.{ℤ, pos, inc32, inc32-pos, lt-inc32, ◌<ℤ◌, ◌≤ℤ◌, eqb_ℤ}
use selected_course_projects.Prelude.Map.{Map, lookup, insert, lookup-insert, lookup-insert_self}
use selected_course_projects.Prelude.Text.{Str, str_eq, beq_str, starts_with, contains}
use selected_course_projects.Data.{Information, Group}
use selected_course_projects.Groups.{
  add_username, with_user_list, spaced, create_group, other_replicas, no_information, replicas,
}

starts_with-append : (p s t : Str) → starts_with p s ≡ true → starts_with p (s ++ t) ≡ true
unfolding starts_with
starts_with-append [] s t e = refl
starts_with-append (x ∷ p) [] t e = cc
starts_with-append (x ∷ p) (y ∷ s) t e = ground (arith, starts_with-append p s t)

starts_with_self : (p : Str) → starts_with p p ≡ true
unfolding starts_with
starts_with_self [] = refl
starts_with_self (x ∷ p) = ground (arith, starts_with_self p, ==_iff x x)

contains-of_start : (p s : Str) → starts_with p s ≡ true → contains s p ≡ true
unfolding contains
contains-of_start p [] e = e
contains-of_start p (y ∷ s) e = ground (arith, e)

-- What a text contains, it still contains with more behind it.
pub contains-append : (s t p : Str) → contains s p ≡ true → contains (s ++ t) p ≡ true
unfolding contains
contains-append [] t [] e = contains-of_start [] t refl
contains-append [] t (x ∷ p) e = cc
contains-append (y ∷ s) t p e =
    ground (arith, starts_with-append p (y ∷ s) t, contains-append s t p)

pub contains-append_right : (s p : Str) → contains (s ++ p) p ≡ true
unfolding contains
contains-append_right [] p = contains-of_start p p (starts_with_self p)
contains-append_right (y ∷ s) p = ground (arith, contains-append_right s p)

abbrev pub or_zero : Option ℤ → ℤ
or_zero none = pos 0
or_zero (some n) = n

-- how often the user takes part, through this server; a missing count reads as 0
abbrev pub count_of : Group → Str → ℤ
count_of g u = or_zero (lookup u g.same_user_name_count)

-- This server's participants are a text in which each user with a count is written.
pub record Listed (string_me : Str) (g : Group) : Type 0 where
  pub info : Information
  pub known : lookup string_me g.replica_info ≡ some info
  pub counts : (u : Str) → pos 0 ≤ℤ count_of g u
  pub listed : (u : Str) → pos 0 <ℤ count_of g u → contains info.user_list (spaced u) ≡ true

-- Of this server's record in a group, the participants and their version alone have changed.
abbrev pub KeepsOwn : (string_me : Str) → Group → Group → Type 0
KeepsOwn string_me g out =
    (i : Information)
    → lookup string_me g.replica_info ≡ some i
    → (names : Str) × (version : ℤ) × (lookup string_me out.replica_info
        ≡ some (record i { user_list = names; group_name_timestamp = version }))

-- The records of the other servers are as they were.
abbrev pub KeepsServers : (string_me : Str) → Group → Group → Type 0
KeepsServers string_me g out =
    (s : Str) → beq_str string_me s ≡ false → lookup s out.replica_info ≡ lookup s g.replica_info

-- The group after a user has joined: he is listed and counted once more, and all is well again.
pub record Joined (string_me : Str) (g : Group) (u : Str) (out : Group) : Type 0 where
  pub whole : Listed string_me out
  pub count : count_of out u ≡ inc32 (count_of g u)
  pub others : (v : Str) → beq_str u v ≡ false → count_of out v ≡ count_of g v
  pub rest : out ≡ record g {
    replica_info = out.replica_info;
    same_user_name_count = out.same_user_name_count;
  }
  pub own : KeepsOwn string_me g out
  pub servers : KeepsServers string_me g out

-- the group with the user counted anew
abbrev with_count : Group → Str → ℤ → Group
with_count g u c = record g { same_user_name_count = insert u c g.same_user_name_count }

abbrev counted : Group → Str → Group
counted g u = with_count g u (inc32 (count_of g u))

-- … and with him written among the participants
abbrev written : (string_me : Str) → Group → Str → Information → Group
written string_me g u info = record g {
  replica_info =
      insert string_me
        (record info {
          user_list = info.user_list ++ spaced u;
          group_name_timestamp = inc32 info.group_name_timestamp;
        })
        g.replica_info;
}

add_username_lem :
    (string_me : Str) (g : Group) (u : Str) (info : Information) (o : Option ℤ)
    → lookup string_me g.replica_info ≡ some info
    → lookup u g.same_user_name_count ≡ o
    → add_username string_me g u
      ≡ some (
          if eqb_ℤ (inc32 (or_zero o)) (pos 1)
          then written string_me (with_count g u (inc32 (or_zero o))) u info
          else with_count g u (inc32 (or_zero o)))
unfolding add_username with_user_list
add_username_lem string_me g u info none k e =
    let one : inc32 (pos 0) ≡ pos 1 = inc32-pos 0 (omega arith) in rw (one, e, k) refl
add_username_lem string_me g u info (some c) k e = elim (Bool-cases (eqb_ℤ (inc32 c) (pos 1))) [
  | inl b ↦ rw (e, b, k) refl
  | inr b ↦ rw (e, b) refl
]

pub or_zero-if :
    (b : Bool) (c : ℤ) (o : Option ℤ)
    → or_zero (if b then some c else o) ≡ (if b then c else or_zero o)
or_zero-if true c o = refl
or_zero-if false c o = refl

count_of-counted :
    (g : Group) (u v : Str)
    → count_of (counted g u) v ≡ (if beq_str u v then inc32 (count_of g u) else count_of g v)
count_of-counted g u v =
    ap or_zero (lookup-insert u v (inc32 (count_of g u)) g.same_user_name_count)
    ∙ or_zero-if (beq_str u v) (inc32 (count_of g u)) (lookup v g.same_user_name_count)

was_counted : (c : ℤ) → pos 0 ≤ℤ c → eqb_ℤ (inc32 c) (pos 1) ≡ false → pos 0 <ℤ c
unfolding inc32
was_counted c le more = ground arith

module _ (string_me : Str) (g : Group) (u : Str) (w : Listed string_me g)
    (lt : count_of g u <ℤ pos 2147483647) where
  still_counts : (v : Str) → pos 0 ≤ℤ count_of (counted g u) v
  still_counts v =
      ground (arith, count_of-counted g u v, w.counts u, w.counts v, lt-inc32 (count_of g u) lt)

  -- a user who is counted afterwards is the new one or was counted before
  counted_before :
      (v : Str) → pos 0 <ℤ count_of (counted g u) v → beq_str u v ≡ false → pos 0 <ℤ count_of g v
  counted_before v c b = ground (arith, count_of-counted g u v)

  listed_first :
      (v : Str)
      → pos 0 <ℤ count_of (counted g u) v
      → contains (w.info.user_list ++ spaced u) (spaced v) ≡ true
  listed_first v c = elim (Bool-cases (beq_str u v)) [
    | inl b ↦
        subst (λ (x : Str). contains (w.info.user_list ++ spaced u) (spaced x) ≡ true)
          ((str_eq.beq_iff u v).0 b) (contains-append_right w.info.user_list (spaced u))
    | inr b ↦
        contains-append w.info.user_list (spaced u) (spaced v) (w.listed v (counted_before v c b))
  ]

  listed_again :
      eqb_ℤ (inc32 (count_of g u)) (pos 1) ≡ false
      → (v : Str) → pos 0 <ℤ count_of (counted g u) v
      → contains w.info.user_list (spaced v) ≡ true
  listed_again more v c = elim (Bool-cases (beq_str u v)) [
    | inl b ↦
        subst (λ (x : Str). contains w.info.user_list (spaced x) ≡ true) ((str_eq.beq_iff u v).0 b)
          (w.listed u (was_counted (count_of g u) (w.counts u) more))
    | inr b ↦ w.listed v (counted_before v c b)
  ]

  count_here : count_of (counted g u) u ≡ inc32 (count_of g u)
  count_here = count_of-counted g u u ∙ rw ((str_eq.beq_iff u u).1 refl) refl

  count_others : (v : Str) → beq_str u v ≡ false → count_of (counted g u) v ≡ count_of g v
  count_others v b = count_of-counted g u v ∙ rw b refl

  -- AddUsername does not panic in a group whose participants are listed; they are listed afterwards,
  -- the user's count is one more, and no other count changes.
  pub add_username-Joined :
      (out : Group) × (add_username string_me g u ≡ some out) × Joined string_me g u out
  add_username-Joined = elim (Bool-cases (eqb_ℤ (inc32 (count_of g u)) (pos 1))) [
    | inl e ↦ (
      written string_me (counted g u) u w.info,
      add_username_lem string_me g u w.info _ w.known refl ∙ rw e refl,
      record {
        whole = record {
          info = record w.info {
            user_list = w.info.user_list ++ spaced u;
            group_name_timestamp = inc32 w.info.group_name_timestamp;
          };
          known = lookup-insert_self string_me _ g.replica_info;
          counts = still_counts;
          listed = listed_first;
        };
        count = count_here;
        others = count_others;
        rest = refl;
        own = λ i e. (
          i.user_list ++ spaced u,
          inc32 i.group_name_timestamp,
          rw (some-injective i w.info (sym e ∙ w.known))
              (lookup-insert_self string_me _ g.replica_info),
        );
        servers = λ s ne. lookup-insert string_me s _ g.replica_info ∙ rw ne refl;
      },
    )
    | inr e ↦ (
      counted g u,
      add_username_lem string_me g u w.info _ w.known refl ∙ rw e refl,
      record {
        whole = record {
          info = w.info;
          known = w.known;
          counts = still_counts;
          listed = listed_again e;
        };
        count = count_here;
        others = count_others;
        rest = refl;
        own = λ i e. (i.user_list, i.group_name_timestamp, e);
        servers = λ s ne. refl;
      },
    )
  ]

pub known_again :
    (t s : Str) (m : Map Str Information)
    → lookup s m ≡ some no_information
    → lookup s (insert t no_information m) ≡ some no_information
known_again t s m e = elim (Bool-cases (beq_str t s)) [
  | inl b ↦ lookup-insert t s no_information m ∙ rw b refl
  | inr b ↦ lookup-insert t s no_information m ∙ rw b e
]

pub lookup-other_replicas :
    (me : ℤ) (s : Str) (rs : List (ℤ × Str)) (m : Map Str Information)
    → lookup s m ≡ some no_information
    → lookup s (other_replicas me rs m) ≡ some no_information
unfolding other_replicas
lookup-other_replicas me s [] m e = e
lookup-other_replicas me s ((i, t) ∷ rs) m e = elim (Bool-cases (eqb_ℤ i me)) [
  | inl b ↦ rw b (lookup-other_replicas me s rs m e)
  | inr b ↦ rw b (lookup-other_replicas me s rs (insert t no_information m) (known_again t s m e))
]

-- A group that CreateGroup makes, for whatever replica, has its participants listed: there are none.
pub create_group-Listed :
    (me : ℤ) (string_me group_name : Str) (timestamp : ℤ)
    → Listed string_me (create_group me string_me group_name timestamp)
unfolding create_group lookup
create_group-Listed me string_me group_name timestamp = record {
  info = no_information;
  known =
      lookup-other_replicas me string_me replicas (insert string_me no_information [])
        (lookup-insert_self string_me no_information []);
  counts = λ u. omega arith;
  listed = λ u c. absurd (omega arith);
}
