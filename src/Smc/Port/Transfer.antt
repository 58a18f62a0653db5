-- ===== src/Smc/Port/Transfer.antt =====
-- Whole transfers over the data port of fakesmc/FakeSMCDevice.cpp: a host that reads or writes a
-- number of bytes, one after the other.
use fake_smc3_with_plugins.Prelude.{
  le→ltb, eq→==, ◌%◌, read_bytes, overwrite, ◌++◌, set, All, IsByte, ◌⊎◌, inl, inr, get_or,
  get_elem?-eq-get_or, refl, ap, ◌∙◌, arith, length, take, drop, Bytes, zeros, ℕ, zero, suc, ◌+◌,
  ◌<◌, ◌≡◌, Option, none, some, [], ◌∷◌,
}
use fake_smc3_with_plugins.Smc.Key.{get_value, Key, Callback}
use fake_smc3_with_plugins.Smc.Device.{Status, Device}
use native.Mathlib.Nat.{mod-eq_of_lt}
use fake_smc3_with_plugins.Smc.Store.{put_key, get_key}
use fake_smc3_with_plugins.Smc.Port.{
  fill_data, fill_found, bump, put_key, get_key, write_writeb, read_writeb, write_cmd, with_status,
  read_cmd, data_readb, data_writeb,
}

abbrev pub prepend : ℕ → Option (Bytes × Status) → Option (Bytes × Status)
prepend b none = none
prepend b (some (bs, s)) = some (b ∷ bs, s)

-- `n` reads of the data port: the bytes and the registers after them, `none` after an access
-- outside of an array.
unfoldable pub drain : ℕ → Status → Option (Bytes × Status)
drain zero s = some ([], s)
drain (suc n) s = elim (data_readb s) [ none ↦ none | some (b, s') ↦ prepend b (drain n s') ]

-- The writes of some bytes to the data port.
unfoldable pub feed : {W : Type 0} → Callback W → Bytes → Device W → Device W
feed call [] d = d
feed call (b ∷ bs) d = feed call bs (data_writeb call b d)

drop-eq-cons : (xs : Bytes) (i : ℕ) → i < length xs → drop i xs ≡ get_or xs i 0 ∷ drop (i + 1) xs
drop-eq-cons [] i h = absurd (omega arith)
drop-eq-cons (y ∷ xs) zero h = refl
drop-eq-cons (y ∷ xs) (suc i) h =
    drop-eq-cons xs i (omega arith)
    ∙ ap (λ j. get_or xs i 0 ∷ drop j (y ∷ xs)) (let e : suc (i + 1) ≡ suc i + 1 = omega arith in e)

-- The registers after the last byte of a value.
abbrev pub drained : Status → Status
drained s = record s { data_pos = s.data_len; status = 0x00; value = zeros 255 }

module _ (s : Status) (c : s.cmd ≡ read_cmd) (l : s.data_len < 256) (v : length s.value ≡ 255) where
  data_readb_next :
      s.data_pos + 1 < s.data_len
      → data_readb s
        ≡ some (get_or s.value s.data_pos 0, record s { data_pos = s.data_pos + 1; status = 0x05 })
  unfolding data_readb
  data_readb_next p = ground (arith, get_elem?-eq-get_or s.value s.data_pos 0)

  data_readb_last :
      s.data_pos + 1 ≡ s.data_len → data_readb s ≡ some (get_or s.value s.data_pos 0, drained s)
  unfolding data_readb
  data_readb_last p = ground (arith, get_elem?-eq-get_or s.value s.data_pos 0)

pub drain-suc :
    (n : ℕ) (s s' : Status) (b : ℕ)
    → data_readb s ≡ some (b, s')
    → drain (suc n) s ≡ prepend b (drain n s')
unfolding drain
drain-suc n s s' b e = rw (e, drain)

-- A host that reads all the bytes that are left of a transfer gets them in order; the last one
-- clears the value and ends the transfer.
pub drain_rest :
    (n : ℕ) (s : Status)
    → s.cmd ≡ read_cmd
    → s.data_len < 256
    → length s.value ≡ 255
    → s.data_pos + suc n ≡ s.data_len
    → drain (suc n) s ≡ some (take (suc n) (drop s.data_pos s.value), drained s)
drain_rest zero s c l v p =
    drain-suc 0 s (drained s) _ (data_readb_last s c l v (omega arith))
    ∙ rw (drop-eq-cons s.value s.data_pos (omega arith)) (unfold drain in refl)
drain_rest (suc n) s c l v p =
    drain-suc (suc n) s _ _ (data_readb_next s c l v (omega arith))
    ∙ rw (drain_rest n (record s { data_pos = s.data_pos + 1; status = 0x05 }) c l v (omega arith))
        (rw (drop-eq-cons s.value s.data_pos (omega arith)))

-- The commands that read four bytes of a name first.
abbrev pub TakesName : ℕ → Type 0
TakesName cmd = (cmd ≡ read_cmd) ⊎ (cmd ≡ write_cmd)

-- The registers after the byte `val` of a name at position `pos`.
abbrev pub named_byte : ℕ → ℕ → Status → Status
named_byte pos val s = record s { key = set s.key pos val; status = 0x04; read_pos = pos + 1 }

pub set_four :
    (xs : Bytes) (a b c e : ℕ)
    → length xs ≡ 4
    → set (set (set (set xs 0 a) 1 b) 2 c) 3 e ≡ a ∷ b ∷ c ∷ e ∷ []
set_four [] a b c e h = absurd (omega arith)
set_four (_ ∷ []) a b c e h = absurd (omega arith)
set_four (_ ∷ _ ∷ []) a b c e h = absurd (omega arith)
set_four (_ ∷ _ ∷ _ ∷ []) a b c e h = absurd (omega arith)
set_four (_ ∷ _ ∷ _ ∷ _ ∷ []) a b c e h = refl
set_four (_ ∷ _ ∷ _ ∷ _ ∷ _ ∷ xs) a b c e h = absurd (omega arith)

-- The registers after the length of a read, with the value that was found.
abbrev pub requested : ℕ → Key → Status → Status
requested len k s = record s {
  data_len = len;
  status = 0x05;
  data_pos = 0;
  read_pos = 5;
  value = overwrite (read_bytes k.size k.value) s.value;
}

module _ {W : Type 0} (call : Callback W) where
  pub data_writeb-name :
      (val pos : ℕ) (d : Device W)
      → TakesName d.status.cmd
      → d.status.read_pos ≡ pos
      → pos < 4
      → val < 256
      → data_writeb call val d ≡ with_status (named_byte pos val d.status) d
  unfolding data_writeb read_writeb write_writeb
  data_writeb-name val pos d (inl c) p q v = ground arith
  data_writeb-name val pos d (inr c) p q v = ground arith

  -- The four bytes behind a command become the key.
  pub feed_name :
      (a b c e : ℕ) (d : Device W)
      → TakesName d.status.cmd
      → d.status.read_pos ≡ 0
      → length d.status.key ≡ 4
      → All IsByte (a ∷ b ∷ c ∷ e ∷ [])
      → feed call (a ∷ b ∷ c ∷ e ∷ []) d
        ≡ with_status (record d.status { key = a ∷ b ∷ c ∷ e ∷ []; status = 0x04; read_pos = 4 }) d
  unfolding feed
  feed_name a b c e d t p l h = rw (data_writeb-name a 0 d t p (omega arith) h.0) (
      rw (data_writeb-name b 1 d₁ t refl (omega arith) h.1.0) (
        rw (data_writeb-name c 2 d₂ t refl (omega arith) h.1.1.0) (
          data_writeb-name e 3 d₃ t refl (omega arith) h.1.1.1.0
          ∙ ap (λ k. with_status (record d.status { key = k; status = 0x04; read_pos = 4 }) d)
              (set_four d.status.key a b c e l))))
    where
      d₁ : Device W
      d₁ = with_status (named_byte 0 a d.status) d

      d₂ : Device W
      d₂ = with_status (named_byte 1 b d₁.status) d

      d₃ : Device W
      d₃ = with_status (named_byte 2 c d₂.status) d

  pub feed-append :
      (xs ys : Bytes) (d : Device W) → feed call (xs ++ ys) d ≡ feed call ys (feed call xs d)
  unfolding feed
  feed-append [] ys d = refl
  feed-append (x ∷ xs) ys d = feed-append xs ys (data_writeb call x d)

  fill_data-found :
      (d : Device W) (i : ℕ) (k : Key)
      → get_key d.status.key d ≡ some (i, k)
      → let (k', w') = get_value call k d.world in
        fill_data call d
        ≡ with_status
            (record d.status { value = overwrite (read_bytes k'.size k'.value) d.status.value })
            (put_key i k' w' d)
  unfolding fill_data
  fill_data-found d i k found = ap (λ r. fill_found call r d) found

  data_writeb-read_fill :
      (len : ℕ) (d : Device W)
      → d.status.cmd ≡ read_cmd
      → d.status.read_pos ≡ 4
      → len < 256
      → let s = record d.status { data_len = len; status = 0x05; data_pos = 0 } in
        let done = fill_data call (with_status s d) in
        data_writeb call len d ≡ with_status (bump done.status) done
  unfolding data_writeb read_writeb
  data_writeb-read_fill len d c p l = rw (
    eq→== d.status.cmd read_cmd c,
    le→ltb d.status.read_pos 4 (omega arith),
    eq→== d.status.read_pos 4 p,
    mod-eq_of_lt l,
  )

  -- The byte behind the name of a read asks the key for its value, through its handler.
  pub data_writeb-read_length :
      (len : ℕ) (d : Device W) (i : ℕ) (k : Key)
      → d.status.cmd ≡ read_cmd
      → d.status.read_pos ≡ 4
      → len < 256
      → get_key d.status.key d ≡ some (i, k)
      → let (k', w') = get_value call k d.world in
        data_writeb call len d ≡ with_status (requested len k' d.status) (put_key i k' w' d)
  unfolding get_key
  data_writeb-read_length len d i k c p l found =
      let s = record d.status { data_len = len; status = 0x05; data_pos = 0 } in
      data_writeb-read_fill len d c p l
      ∙ rw (fill_data-found (with_status s d) i k found) (
          ap
            (λ n.
              let (k', w') = get_value call k d.world in
              with_status (record (requested len k' d.status) { read_pos = n }) (put_key i k' w' d))
            (let e : (d.status.read_pos + 1) % 256 ≡ 5 = omega arith in e))
