-- ===== src/Core/Runtime/Requests/Alone.antt =====
-- A scheduler in which one sequence alone may run.
use solo_rt.Prelude.{
  ◌<◌, ◌≡◌, ◌≢◌, refl, sym, ap, subst, ◌∙◌, true, false, some, List, [], ◌∷◌, ◌++◌, String,
  str_eq_iff, length, ok, arith,
}
use solo_rt.Prelude.Dict
use solo_rt.Prelude.Dict.{Dict, lookup-insert}
use solo_rt.Prelude.Sort.{All, sort_by}
use solo_rt.Core.Sequence.{Sequence, is_terminal}
use solo_rt.Core.Scheduler.{InteractiveScheduler, candidates, select_next_sequence, write}
use solo_rt.Core.Runtime.Execute.Tokens.{IsBounded}

-- A finished or cancelled sequence under another id.
abbrev pub IsDone : String → Dict Sequence → String → Type 0
IsDone id d k = (k ≢ id) × ((q : Sequence) × (Dict.lookup k d ≡ some q) × (is_terminal q ≡ true))

-- Every other id in the queue is that of a sequence that is finished or cancelled.
pub record IsAlone (id : String) (s : InteractiveScheduler) : Type 0 where
  pub before : List String
  pub behind : List String
  pub order_lem : s.order ≡ before ++ id ∷ behind
  pub done_before : All (IsDone id s.sequences) before
  pub done_behind : All (IsDone id s.sequences) behind

IsDone-insert :
    (id k : String) (q : Sequence) (d : Dict Sequence)
    → IsDone id d k
    → IsDone id (Dict.insert id q d) k
IsDone-insert id k q d (other, (p, found, over)) =
    (other, (p, ground (arith, lookup-insert id k q d, str_eq_iff id k, found), over))

pub AreDone-insert :
    (id : String) (ks : List String) (q : Sequence) (d : Dict Sequence)
    → All (IsDone id d) ks
    → All (IsDone id (Dict.insert id q d)) ks
AreDone-insert id [] q d h = tt
AreDone-insert id (k ∷ ks) q d h = (IsDone-insert id k q d h.0, AreDone-insert id ks q d h.1)

candidates_done :
    (id : String) (d : Dict Sequence) (ks order : List String)
    → All (IsDone id d) ks
    → candidates d (ks ++ order) ≡ candidates d order
unfolding candidates
candidates_done id d [] order h = refl
candidates_done id d (k ∷ ks) order ((_, (p, found, over)), more) =
    rw (candidates, found, over) (candidates_done id d ks order more)

candidates_behind :
    (id : String) (d : Dict Sequence) (ks : List String)
    → All (IsDone id d) ks
    → candidates d ks ≡ ok []
unfolding candidates
candidates_behind id d [] h = refl
candidates_behind id d (k ∷ ks) ((_, (p, found, over)), more) =
    rw (candidates, found, over) (candidates_behind id d ks more)

-- The sequence that a stream is about, alone in its scheduler.
pub record IsServed (id : String) (q : Sequence) (s : InteractiveScheduler) : Type 0 where
  pub held : Dict.lookup id s.sequences ≡ some q
  pub keyed : q.seq_id ≡ id
  pub alone : IsAlone id s
  pub chunks : 0 < s.max_prefill_chunk_tokens
  pub prompt : q.num_prompt_tokens ≡ length q.input_ids
  pub some_prompt : 0 < length q.input_ids
  pub bounded : IsBounded q

pub select_served :
    (id : String) (q : Sequence) (s : InteractiveScheduler)
    → IsServed id q s
    → is_terminal q ≡ false
    → select_next_sequence s ≡ ok (some q)
unfolding select_next_sequence candidates sort_by
select_served id q s h live =
    let a = h.alone in
    let rest : candidates s.sequences (id ∷ a.behind) ≡ ok (q ∷ []) =
      rw (candidates, h.held, live, candidates_behind id s.sequences a.behind a.done_behind) refl in
    let all : candidates s.sequences s.order ≡ ok (q ∷ []) =
      ap (candidates s.sequences) a.order_lem
      ∙ candidates_done id s.sequences a.before (id ∷ a.behind) a.done_before
      ∙ rest in
    rw all refl

-- A write of the sequence.
pub write-IsServed :
    (id : String) (q p : Sequence) (s : InteractiveScheduler)
    → IsServed id q s
    → p.seq_id ≡ q.seq_id
    → p.num_prompt_tokens ≡ q.num_prompt_tokens
    → p.input_ids ≡ q.input_ids
    → IsBounded p
    → IsServed id p (write p s)
write-IsServed id q p s h same prompt ids bounded =
    let a = h.alone in
    let there : Dict.lookup id (Dict.insert id p s.sequences) ≡ some p =
      ground (arith, lookup-insert id id p s.sequences, str_eq_iff id id) in
    subst (λ i. IsServed id p (record s { sequences = Dict.insert i p s.sequences }))
      (sym (same ∙ h.keyed))
      (record {
        held = there;
        keyed = same ∙ h.keyed;
        alone = record {
          before = a.before;
          behind = a.behind;
          order_lem = a.order_lem;
          done_before = AreDone-insert id a.before p s.sequences a.done_before;
          done_behind = AreDone-insert id a.behind p s.sequences a.done_behind;
        };
        chunks = h.chunks;
        prompt = prompt ∙ h.prompt ∙ ap length (sym ids);
        some_prompt = subst (λ l. 0 < length l) (sym ids) h.some_prompt;
        bounded = bounded;
      })
