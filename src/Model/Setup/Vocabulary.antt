-- ===== src/Model/Setup/Vocabulary.antt =====
-- A draft model that was loaded speaks the target's vocabulary.
use solo_rt.Prelude.{
  ℕ, ◌≡◌, sym, ap, subst, ◌∙◌, inl, inr, true, Option, none, some, String, ◌==◌, ℤ, Result,
  Result-cases, ok, err, Bool-cases, arith,
}
use solo_rt.Prelude.Exec.{Exec, ◌>>=◌, >>=-ok, >>=-err}
use solo_rt.Backend.FlashInfer.{Bridge, ModelKwargs, model_kwargs}
use solo_rt.Model.Setup.{
  Hub, if_compatible, wants_draft, name_of, on_device, load, draft_vocab_compatible,
  load_draft_model,
}

module _ {M : Type 0} (hub : Hub M) where
  compatible_lem :
      (target draft : M) (n m : ℕ)
      → draft_vocab_compatible hub target draft ≡ true
      → hub.vocab_size target ≡ some n
      → hub.vocab_size draft ≡ some m
      → n ≡ m
  unfolding draft_vocab_compatible
  compatible_lem target draft n m h t d =
      let same : (n == m) ≡ true = rw (draft_vocab_compatible, t, d) at h in ground (arith, same)

  kept_lem :
      (target draft : M) (r : Result M)
      → if_compatible hub target r ≡ ok (some draft)
      → draft_vocab_compatible hub target draft ≡ true
  kept_lem target draft (err e) h = cc
  kept_lem target draft (ok model) h = elim (Bool-cases (draft_vocab_compatible hub target model)) [
    | inl c ↦
        let e : ok (some model) ≡ ok (some draft) = rw c at h in
        let same : model ≡ draft = cc in
        subst (λ d. draft_vocab_compatible hub target d ≡ true) same c
    | inr c ↦ let e : ok none ≡ ok (some draft) = rw c at h in cc
  ]

  pub load_draft_model-vocab_size :
      (attention torch_dtype device_map : String) (draft_id : Option String) (tokens : ℤ)
      (draft_device_map : Option String) (target draft : M) (b b' : Bridge) (n m : ℕ)
      → load_draft_model hub attention torch_dtype device_map draft_id tokens draft_device_map
          target b
        ≡ (ok (some draft), b')
      → hub.vocab_size target ≡ some n
      → hub.vocab_size draft ≡ some m
      → n ≡ m
  unfolding load_draft_model
  load_draft_model-vocab_size attention torch_dtype device_map draft_id tokens draft_device_map
        target draft b b' n m runs t d =
      elim (Bool-cases (wants_draft hub draft_id tokens)) [
        | inr unwanted ↦
            let e : (ok none, b) ≡ (ok (some draft), b') = rw unwanted at runs in
            let none_is : ok none ≡ ok (some draft) = ap (λ p. p.0) e in cc
        | inl wanted ↦
            let run = model_kwargs hub.has_dtype attention torch_dtype device_map in
            let next : ModelKwargs → Exec Bridge (Option M) = λ kwargs w. (
              if_compatible hub target
                  (load hub (name_of hub draft_id) (on_device hub draft_device_map kwargs)),
              w,
            ) in
            let ran : (run >>= next) b ≡ (ok (some draft), b') = rw wanted at runs in
            elim (Result-cases (run b).0) [
              | inl (error, failed) ↦
                  let raised = sym (>>=-err run next b (ap (λ r. (r, (run b).1)) failed)) ∙ ran in
                  let e : err error ≡ ok (some draft) = ap (λ p. p.0) raised in cc
              | inr (kwargs, made) ↦
                  let loaded = sym (>>=-ok run next b (ap (λ r. (r, (run b).1)) made)) ∙ ran in
                  compatible_lem target draft n m
                    (kept_lem target draft
                      (load hub (name_of hub draft_id) (on_device hub draft_device_map kwargs))
                      (ap (λ p. p.0) loaded))
                    t d
            ]
      ]
