-- ===== src/Sv2/Translated/Lines.antt =====
-- src/proto/sv2/relay.rs, `handle_sv1_line`: lines of an SV1 pool that was swapped away, and answers
-- that come twice.
use blitzpool_rental_proxy.Prelude.{
  ◌≡◌, ◌≢◌, refl, sym, ap, ◌∙◌, ℕ, Bool, true, false, Option, none, some, List, [], ◌∷◌, nat_beq,
  nat_eq, nat_beq_iff, arith,
}
use blitzpool_rental_proxy.Prelude.Dict.{lookup-remove}
use blitzpool_rental_proxy.Prelude.Float.{Float}
use blitzpool_rental_proxy.Sv2.{Inner}
use blitzpool_rental_proxy.Sv2.Sv1Upstream.{
  Sv1UpState, ToMiner, submit_success, submit_error, take_seq,
}
use blitzpool_rental_proxy.Sv2.Translated.{
  Sv1Line, notify, set_difficulty, response, ignored, handle_sv1_line, on_answer,
  send_translate_frames, set_translate_diff, credit_translate,
}
use blitzpool_rental_proxy.Translate.{Threshold, Crates}

stale_test : (generation : ℕ) {other : ℕ} → generation ≢ other → nat_beq generation other ≡ false
stale_test generation {other} old = ground (arith, nat_beq_iff generation other)

module _ {W : Type 0} where
  send_translate_frames-stale :
      (generation : ℕ) (frames : List ToMiner) (i : Inner W)
      → generation ≢ i.generation
      → send_translate_frames generation frames i ≡ []
  unfolding send_translate_frames
  send_translate_frames-stale generation frames i old = rw (stale_test generation old) refl

  set_translate_diff-stale :
      (generation down_cid : ℕ) (diff : W) (i : Inner W)
      → generation ≢ i.generation
      → set_translate_diff generation down_cid diff i ≡ i
  unfolding set_translate_diff
  set_translate_diff-stale generation down_cid diff i old = rw (stale_test generation old) refl

module _ {W : Type 0} ⦃f : Float W⦄ (t : Threshold W) (c : Crates) where
  credit_translate-stale :
      (now generation down_cid : ℕ) (i : Inner W)
      → generation ≢ i.generation
      → credit_translate now generation down_cid i ≡ (none, i)
  unfolding credit_translate
  credit_translate-stale now generation down_cid i old = rw (stale_test generation old) refl

  on_answer-stale :
      (now generation down_cid : ℕ) (seq : Option ℕ) (accepted : Bool) (i : Inner W)
      (s : Sv1UpState)
      → generation ≢ i.generation
      → on_answer t c now generation down_cid seq accepted i s ≡ ([], none, i, s)
  unfolding on_answer
  on_answer-stale now generation down_cid none accepted i s old = refl
  on_answer-stale now generation down_cid (some seq) true i s old =
      rw
        (
          credit_translate-stale now generation down_cid i old,
          send_translate_frames-stale generation (submit_success down_cid seq ∷ []) i old,
        )
        refl
  on_answer-stale now generation down_cid (some seq) false i s old =
      rw (send_translate_frames-stale generation (submit_error down_cid seq ∷ []) i old) refl

  -- A line that the reader of another generation hands on sends nothing to the miner, credits nothing
  -- and leaves the session as it was.
  pub handle_sv1_line-stale :
      (now generation down_cid : ℕ) (line : Sv1Line W) (i : Inner W) (s : Sv1UpState)
      → generation ≢ i.generation
      → ((handle_sv1_line t c now generation down_cid line i s).0 ≡ [])
        × ((handle_sv1_line t c now generation down_cid line i s).1 ≡ none)
        × ((handle_sv1_line t c now generation down_cid line i s).2 ≡ i)
  unfolding handle_sv1_line
  handle_sv1_line-stale now generation down_cid (notify n) i s old =
      (send_translate_frames-stale generation _ i old, refl, refl)
  handle_sv1_line-stale now generation down_cid (set_difficulty diff) i s old =
      rw (set_translate_diff-stale generation down_cid diff i old)
        (send_translate_frames-stale generation _ i old, refl, refl)
  handle_sv1_line-stale now generation down_cid (response none accepted) i s old =
      (refl, refl, refl)
  handle_sv1_line-stale now generation down_cid (response (some id) accepted) i s old =
      rw
        (on_answer-stale now generation down_cid (take_seq id s).0 accepted i (take_seq id s).1 old)
        (refl, refl, refl)
  handle_sv1_line-stale now generation down_cid ignored i s old = (refl, refl, refl)

  on_answer-state :
      (now generation down_cid : ℕ) (seq : Option ℕ) (accepted : Bool) (i : Inner W)
      (s : Sv1UpState)
      → (on_answer t c now generation down_cid seq accepted i s).3 ≡ s
  unfolding on_answer
  on_answer-state now generation down_cid none accepted i s = refl
  on_answer-state now generation down_cid (some seq) true i s = refl
  on_answer-state now generation down_cid (some seq) false i s = refl

  unknown_answer :
      (later generation down_cid : ℕ) (again : Bool) (j : Inner W) (u : Sv1UpState)
      → ((on_answer t c later generation down_cid none again j u).0 ≡ [])
        × ((on_answer t c later generation down_cid none again j u).1 ≡ none)
        × ((on_answer t c later generation down_cid none again j u).2 ≡ j)
  unfolding on_answer
  unknown_answer later generation down_cid again j u = (refl, refl, refl)

  take_seq-twice : (id : ℕ) (s : Sv1UpState) → (take_seq id (take_seq id s).1).0 ≡ none
  unfolding take_seq
  take_seq-twice id s = ground (arith, lookup-remove id id s.submit_seq, nat_beq_iff id id)

  -- Whatever the first answer to a submit said, a second answer under the same id sends nothing,
  -- credits nothing and leaves the session as it is.
  pub handle_sv1_line-once :
      (now later generation down_cid id : ℕ) (accepted again : Bool) (i j : Inner W)
      (s s' : Sv1UpState)
      → (handle_sv1_line t c now generation down_cid (response (some id) accepted) i s).3 ≡ s'
      → ((handle_sv1_line t c later generation down_cid (response (some id) again) j s').0 ≡ [])
        × ((handle_sv1_line t c later generation down_cid (response (some id) again) j s').1 ≡ none)
        × ((handle_sv1_line t c later generation down_cid (response (some id) again) j s').2 ≡ j)
  unfolding handle_sv1_line
  handle_sv1_line-once now later generation down_cid id accepted again i j s s' after =
      let same =
        sym after
        ∙ on_answer-state now generation down_cid (take_seq id s).0 accepted i (take_seq id s).1 in
      let gone = ap (λ x. (take_seq id x).0) same ∙ take_seq-twice id s in
      rw gone (unknown_answer later generation down_cid again j (take_seq id s').1)
