-- ===== src/Acpi/Laws/Fans.antt =====
-- The speed of a fan that ACPIMonitor.cpp sets and reads by a method of ACPI.
use fake_smc3_with_plugins.Prelude.{
  Option, get_or, Bytes, read_bytes, c_str, overwrite, ℕ, ◌%◌, ◌^◌, ◌<◌, ◌≡◌, refl, sym, ap, ◌∙◌,
  subst, some, [], ◌∷◌, arith,
}
use fake_smc3_with_plugins.Smc.Key.{IoReturn, success, get_value_callback, set_value_callback}
use fake_smc3_with_plugins.SuperIo.Codec.{encode_fpe2, decode_fpe2, swap_value}
use fake_smc3_with_plugins.SuperIo.Codec.Laws.{decode_fpe2-encode_fpe2}
use fake_smc3_with_plugins.SuperIo.Monitor.{self, value_bytes, stored_value}
use fake_smc3_with_plugins.Pci.{get_object}
use fake_smc3_with_plugins.Acpi.{
  Acpi, AcpiMonitor, AcpiWorld, encode_method, decode_method, answer_evaluated, read_method,
  write_method, acpi_callback,
}

encode_method-fan :
    (method : Bytes) (value : ℕ)
    → get_or method 0 0 ≡ 0x46
    → get_or method 1 0 ≡ 0x41
    → encode_method method value ≡ encode_fpe2 (value % 65536)
unfolding encode_method
encode_method-fan method value first second = ground arith

decode_method-fan :
    (method : Bytes) (value : ℕ)
    → get_or method 0 0 ≡ 0x46
    → decode_method method value ≡ decode_fpe2 value
unfolding decode_method
decode_method-fan method value first = ground arith

stored_value-encode_fpe2 : (n : ℕ) → stored_value (value_bytes (encode_fpe2 n)) ≡ encode_fpe2 n
unfolding stored_value value_bytes encode_fpe2 swap_value
stored_value-encode_fpe2 n = omega arith

decode_method-stored_value :
    (method : Bytes) (n : ℕ)
    → get_or method 0 0 ≡ 0x46
    → n < 16384
    → decode_method method (stored_value (value_bytes (encode_fpe2 n))) ≡ n
decode_method-stored_value method n first small =
    decode_method-fan method _ first
    ∙ ap decode_fpe2 (stored_value-encode_fpe2 n)
    ∙ decode_fpe2-encode_fpe2 n
    ∙ small_mod
  where
    small_mod : n % 16384 ≡ n
    small_mod = omega arith

module _ {H : Type 0} (p : Acpi H) where
  answer_evaluated_success :
      (method bytes : Bytes) (size : ℕ) (s : AcpiMonitor) (r : IoReturn) (value : ℕ) (h : H)
      → r ≡ success
      → ((answer_evaluated p method bytes size s (r, value, h)).0 ≡ success)
        × ((answer_evaluated p method bytes size s (r, value, h)).1
            ≡ overwrite
                (read_bytes size (value_bytes (encode_method method (value % 2 ^ 64))))
                bytes)
  unfolding answer_evaluated
  answer_evaluated_success method bytes size s r value h e =
      subst
        (λ q.
          ((answer_evaluated p method bytes size s (q, value, h)).0 ≡ success)
          × ((answer_evaluated p method bytes size s (q, value, h)).1
              ≡ overwrite (read_bytes size (value_bytes (encode_method method (value % 2 ^ 64))))
                  bytes))
        (sym e) (refl, refl)

  read_method-write_method :
      (method : Bytes) (speed : ℕ) (s : AcpiMonitor) (h : H)
      → get_or method 0 0 ≡ 0x46
      → get_or method 1 0 ≡ 0x41
      → speed < 16384
      → ((v : ℕ) (k : H) → (p.evaluate method [] (p.evaluate method (v ∷ []) k).2).0 ≡ success)
      → ((v : ℕ) (k : H) → (p.evaluate method [] (p.evaluate method (v ∷ []) k).2).1 ≡ v)
      → let w = (write_method p (some method) (value_bytes (encode_fpe2 speed)) (s, h)).2 in
        let (r, out, w1) = read_method p (some method) (0 ∷ 0 ∷ []) 2 w in
        (r ≡ success) × (out ≡ value_bytes (encode_fpe2 speed))
  unfolding read_method write_method overwrite read_bytes value_bytes
  read_method-write_method method speed s h first second small works keeps =
      let sent = decode_method method (stored_value (value_bytes (encode_fpe2 speed))) in
      let e = p.evaluate method [] (p.evaluate method (sent ∷ []) h).2 in
      let q = answer_evaluated_success method (0 ∷ 0 ∷ []) 2 s e.0 e.1 e.2 (works sent h) in
      let value : e.1 ≡ speed =
        keeps sent h ∙ decode_method-stored_value method speed first small in
      let whole : speed % 2 ^ 64 % 65536 ≡ speed = omega arith in
      (
        q.0,
        q.1
            ∙ ap (λ x. value_bytes (encode_method method (x % 2 ^ 64))) value
            ∙ ap value_bytes
                (encode_method-fan method (speed % 2 ^ 64) first second ∙ ap encode_fpe2 whole),
      )

  -- A speed below 16384 that is stored in the key of a fan, with a method named "FA…", is what is read
  -- from the key then, if the method succeeds and answers with the number that it was given last.
  pub acpi_callback-acpi_callback :
      (name method : Bytes) (speed : ℕ) (s : AcpiMonitor) (h : H)
      → get_object (c_str name) s.sensors ≡ some method
      → get_or method 0 0 ≡ 0x46
      → get_or method 1 0 ≡ 0x41
      → speed < 16384
      → ((v : ℕ) (k : H) → (p.evaluate method [] (p.evaluate method (v ∷ []) k).2).0 ≡ success)
      → ((v : ℕ) (k : H) → (p.evaluate method [] (p.evaluate method (v ∷ []) k).2).1 ≡ v)
      → let w =
          (acpi_callback p set_value_callback self name
            (value_bytes (encode_fpe2 speed))
            2
            (s, h)).2 in
        let (r, out, w1) = acpi_callback p get_value_callback self name (0 ∷ 0 ∷ []) 2 w in
        (r ≡ success) × (out ≡ value_bytes (encode_fpe2 speed))
  unfolding acpi_callback read_method write_method
  acpi_callback-acpi_callback name method speed s h known first second small works keeps =
      let P : IoReturn × Bytes × AcpiWorld H → Type 0 =
        λ a. (a.0 ≡ success) × (a.1 ≡ value_bytes (encode_fpe2 speed)) in
      let written : Option Bytes → AcpiWorld H =
        λ o. (write_method p o (value_bytes (encode_fpe2 speed)) (s, h)).2 in
      subst
        (λ o. P (
          read_method p (get_object (c_str name) (written o).0.sensors) (0 ∷ 0 ∷ []) 2 (written o)))
        (sym known)
        (subst (λ o. P (read_method p o (0 ∷ 0 ∷ []) 2 (written (some method)))) (sym known)
          (read_method-write_method method speed s h first second small works keeps))
