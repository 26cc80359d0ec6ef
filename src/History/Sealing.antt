-- ===== src/History/Sealing.antt =====
-- What the store writes is a sealed stream.
use ultranix_mcp.Prelude.{
  nat_eq, string_eq, length, drop, All, ok, ok_or, >>=-eq-ok, ok_or-eq-ok, ok_injective, ℕ, zero,
  suc, ◌+◌, ◌^◌, ◌<◌, ◌≡◌, refl, sym, ap, ◌∙◌, subst, true, Option, none, some, List, [], ◌∷◌, ◌++◌,
  arith,
}
use ultranix_mcp.History.Records.{Bytes, ActionRecord, Cipher, IsCipher, IsStorable, nonce_len}
use ultranix_mcp.History.Frames.{frame_aad, seal_frame, follows}
use ultranix_mcp.History.Framing.{IsSealed, seal_frame-shape, length-framed}
use ultranix_mcp.History.Store.{Environment, seal_all, encryption_failed}

-- Indices that go up from `prev`.
unfoldable pub IsIncreasing : Option ℕ → List ActionRecord → Type 0
IsIncreasing prev [] = Unit
IsIncreasing prev (r ∷ rs) = (follows prev r.index ≡ true) × IsIncreasing (some r.index) rs

IsIncreasing-weaken :
    (prev : Option ℕ) (rs : List ActionRecord) → IsIncreasing prev rs → IsIncreasing none rs
unfolding IsIncreasing
IsIncreasing-weaken prev [] h = tt
IsIncreasing-weaken prev (r ∷ rs) (h, k) = (refl, k)

pub IsIncreasing-drop :
    (n : ℕ) (rs : List ActionRecord) → IsIncreasing none rs → IsIncreasing none (drop n rs)
unfolding IsIncreasing
IsIncreasing-drop zero rs h = h
IsIncreasing-drop (suc n) [] h = h
IsIncreasing-drop (suc n) (r ∷ rs) (h, k) =
    IsIncreasing-drop n rs (IsIncreasing-weaken (some r.index) rs k)

pub IsIncreasing-append :
    (prev : Option ℕ) (rs : List ActionRecord) (r : ActionRecord)
    → follows prev r.index ≡ true
    → All (λ x. x.index < r.index) rs
    → IsIncreasing prev rs
    → IsIncreasing prev (rs ++ r ∷ [])
unfolding IsIncreasing
IsIncreasing-append prev [] r f a h = (f, tt)
IsIncreasing-append prev (x ∷ rs) r f (lt, a) (g, h) =
    (g, IsIncreasing-append (some x.index) rs r (ground arith) a h)

-- Random nonces have their length.
abbrev pub HasNonces : Environment → Type 0
HasNonces env = (i : ℕ) → length (env.nonces i) ≡ nonce_len

-- The frame of a record that can be stored stays under 4 GiB.
pub seal_frame-small :
    (c : Cipher) (key nonce aad frame : Bytes) (r : ActionRecord)
    → IsCipher c
    → IsStorable c r
    → length nonce ≡ nonce_len
    → seal_frame c key nonce r aad ≡ some frame
    → length frame < 2 ^ 32
seal_frame-small c key nonce aad frame r law storable fits h =
    let (sealed, sealing, shape) = seal_frame-shape c key nonce aad frame r h in
    omega (
      arith,
      ap length shape,
      length-framed nonce sealed,
      fits,
      law.encrypt_tag key nonce aad (c.to_vec r) sealed sealing,
      storable.1,
    )

module _ (c : Cipher) (env : Environment) (key : Bytes) (law : IsCipher c)
    (nonces : HasNonces env) where
  pub seal_all-IsSealed :
      (i : ℕ) (aad : Bytes) (prev : Option ℕ) (rs : List ActionRecord) (out tail : Bytes)
      → All (IsStorable c) rs
      → IsIncreasing prev rs
      → seal_all c env key i aad rs ≡ ok (out, tail)
      → IsSealed c key aad prev rs out tail
  unfolding seal_all IsSealed IsIncreasing
  seal_all-IsSealed i aad prev [] out tail st h e =
      (ap (λ p. p.0) (sym (ok_injective e)), ap (λ p. p.1) (sym (ok_injective e)))
  seal_all-IsSealed i aad prev (r ∷ rs) out tail (st, sts) (f, h) e =
      let (frame, seal, rest) =
        >>=-eq-ok (ok_or (seal_frame c key (env.nonces i) r aad) encryption_failed) _ e in
      let ((more, end), below, last) =
        >>=-eq-ok (seal_all c env key (i + 1) (frame_aad c frame) rs) _ rest in
      let ends : end ≡ tail = ap (λ p. p.1) (ok_injective last) in
      (
        env.nonces i,
        frame,
        more,
        nonces i,
        ok_or-eq-ok _ encryption_failed seal,
        seal_frame-small c key (env.nonces i) aad frame r law st (nonces i)
            (ok_or-eq-ok _ encryption_failed seal),
        f,
        sym (ap (λ p. p.0) (ok_injective last)),
        seal_all-IsSealed (i + 1) (frame_aad c frame) (some r.index) rs more tail sts h
            (below ∙ ap (λ z. ok (more, z)) ends),
      )

append_nil : (xs : Bytes) → xs ++ [] ≡ xs
append_nil [] = refl
append_nil (x ∷ xs) = ap (λ ys. x ∷ ys) (append_nil xs)

append_assoc : (xs ys zs : Bytes) → (xs ++ ys) ++ zs ≡ xs ++ (ys ++ zs)
append_assoc [] ys zs = refl
append_assoc (x ∷ xs) ys zs = ap (λ ws. x ∷ ws) (append_assoc xs ys zs)

pub IsSealed-append :
    (c : Cipher) (key aad nonce frame : Bytes) (prev : Option ℕ) (rs : List ActionRecord)
    (r : ActionRecord) (bytes mid : Bytes)
    → length nonce ≡ nonce_len
    → seal_frame c key nonce r mid ≡ some frame
    → length frame < 2 ^ 32
    → follows prev r.index ≡ true
    → All (λ x. x.index < r.index) rs
    → IsSealed c key aad prev rs bytes mid
    → IsSealed c key aad prev (rs ++ r ∷ []) (bytes ++ frame) (frame_aad c frame)
unfolding IsSealed
IsSealed-append c key aad nonce frame prev [] r bytes mid n seal small f a (e, t) = (
  nonce,
  frame,
  [],
  n,
  subst (λ z. seal_frame c key nonce r z ≡ some frame) t seal,
  small,
  f,
  rw e (sym (append_nil frame)),
  (refl, refl),
)
IsSealed-append c key aad nonce frame prev (x ∷ rs) r bytes mid n seal small f (lt, a)
      (nonce', frame', rest, n', seal', small', f', e, more) =
    (
      nonce',
      frame',
      rest ++ frame,
      n',
      seal',
      small',
      f',
      ap (λ z. z ++ frame) e ∙ append_assoc frame' rest frame,
      IsSealed-append c key (frame_aad c frame') nonce frame (some x.index) rs r rest mid n seal
          small (ground arith) a more,
    )
