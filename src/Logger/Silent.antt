-- ===== src/Logger/Silent.antt =====
-- What hw9's logger comes to: no call of `logger_log` ever writes a line.
use otus_c.Prelude.{
  ℕ, ◌≡◌, ◌⊎◌, inl, inr, refl, sym, ap, subst, ◌∙◌, Bool, true, false, List, [], Bool-cases,
}
use otus_c.Prelude.Bytes.{CString}
use otus_c.Logger.{
  LogLevel, Logger, Answers, null, Ending, done, waiting, undefined, init_logger, logger_log,
  log_rotate, close_and_reopen, after_rotate, Reach, here, init, log,
}

-- Nothing is written, and before `init_logger` has succeeded the sizes are zero and no file is open.
record Inv (s : Logger) : Type 0 where
  silent : s.written ≡ []
  unset : s.is_init ≡ false → (s.output ≡ null) × (s.max_file_size ≡ 0) × (s.current_file_size ≡ 0)

abbrev value_or : Logger → Ending Logger → Logger
value_or s (done t) = t
value_or s waiting = s
value_or s undefined = s

done_injective : {s t : Logger} → done s ≡ done t → s ≡ t
done_injective {s} e = ap (value_or s) e

-- The three ways that a call of `logger_log` ends.
logger_log-ends :
    {s : Logger} (answers : Answers) (sizes : List ℕ) (level : LogLevel) (file : CString) (line : ℕ)
    (message : CString)
    → Inv s
    → ((s.is_init ≡ true) × (logger_log answers sizes level file line message s ≡ done s))
      ⊎ ((logger_log answers sizes level file line message s ≡ waiting)
          ⊎ (logger_log answers sizes level file line message s ≡ undefined))
unfolding logger_log log_rotate close_and_reopen after_rotate
logger_log-ends {s} answers sizes level file line message v = elim (Bool-cases s.is_init) [
  | inl ready ↦ inl (ready, rw ready refl)
  | inr before ↦ inr (elim (Bool-cases s.locked) [
    | inl held ↦ inl (rw (before, held) refl)
    | inr free ↦
        let (out, most, size) = v.unset before in inr (rw (before, free, out, most, size) refl)
  ])
]

init-ready :
    (opens : Bool) (size : ℕ) (f : CString) (s : Logger)
    → s.is_init ≡ true
    → (init_logger opens size f s).1 ≡ s
unfolding init_logger
init-ready opens size f s ready = rw ready refl

init-Inv :
    {s : Logger} (opens : Bool) (size : ℕ) (f : CString)
    → Inv s
    → Inv ((init_logger opens size f s).1)
unfolding init_logger
init-Inv {s} opens size f v = elim (Bool-cases s.is_init) [
  | inl ready ↦ subst Inv (sym (init-ready opens size f s ready)) v
  | inr before ↦ fresh before (Bool-cases opens)
]
  where
    fresh :
        s.is_init ≡ false → (opens ≡ true) ⊎ (opens ≡ false) → Inv ((init_logger opens size f s).1)
    fresh before (inl e) = rw (before, e) (record { silent = v.silent; unset = λ h. (cc, cc, cc) })
    fresh before (inr e) =
        rw (before, e) (record { silent = v.silent; unset = λ h. v.unset before })

Reach-Inv : {s : Logger} → Reach s → Inv s
Reach-Inv here = record { silent = refl; unset = λ e. (refl, refl, refl) }
Reach-Inv (init opens size f run) = init-Inv opens size f (Reach-Inv run)
Reach-Inv (log answers sizes level file line message run e) =
    let v = Reach-Inv run in
    elim (logger_log-ends answers sizes level file line message v) [
      | inl (ready, same) ↦ subst Inv (done_injective (sym same ∙ e)) v
      | inr (inl waits) ↦ absurd (let x = sym waits ∙ e in cc)
      | inr (inr wrong) ↦ absurd (let x = sym wrong ∙ e in cc)
    ]

-- In every state that calls of the logger come to, nothing has been written, and `logger_log` with any
-- arguments writes nothing: after `init_logger` has succeeded it returns at once, and before that it
-- waits for good on the mutex that a failed `init_logger` has left locked, or closes a null pointer.
pub logger_log-silent :
    {s : Logger} (answers : Answers) (sizes : List ℕ) (level : LogLevel) (file : CString) (line : ℕ)
    (message : CString)
    → Reach s
    → (s.written ≡ [])
      × (((s.is_init ≡ true) × (logger_log answers sizes level file line message s ≡ done s))
          ⊎ ((logger_log answers sizes level file line message s ≡ waiting)
              ⊎ (logger_log answers sizes level file line message s ≡ undefined)))
logger_log-silent answers sizes level file line message run =
    let v = Reach-Inv run in (v.silent, logger_log-ends answers sizes level file line message v)
