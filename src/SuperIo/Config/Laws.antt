-- ===== src/SuperIo/Config/Laws.antt =====
-- What the choice of the configuration and the tables of names answer.
use mathlib.Core.Option.{bind, or_else}
use fake_smc3_with_plugins.Prelude.{
  if◌then◌else◌, All, Bytes, codes, c_str, ◌≡◌, refl, sym, ap, ◌∙◌, subst, Bool, true, false,
  Option, none, some, List, [], ◌∷◌, if◌then◌else◌, All, Bytes, codes, c_str, ◌≡◌, refl, sym, ap,
  ◌∙◌, subst, Bool, true, false, Option, none, some, List, [], ◌∷◌, if◌then◌else◌, All, Bytes,
  codes, c_str, ◌≡◌, refl, sym, ap, ◌∙◌, subst, Bool, true, false, Option, none, some, List, [],
  ◌∷◌, if◌then◌else◌, All, Bytes, codes, c_str, ◌≡◌, refl, sym, ap, ◌∙◌, subst, Bool, true, false,
  Option, none, some, List, [], ◌∷◌, c_str, refl, ap, ◌∙◌, none, Option, if◌then◌else◌, Bool, true,
  false, All, Bytes, ◌≡◌, subst, some, List, [], ◌∷◌,
}
use fake_smc3_with_plugins.SuperIo.Config.{
  Platform, Dictionary, Outcome, crashed, done, fits_array, board_or_product, linked,
  configuration_of_board, configuration_of_nick, configuration_of_vendor, or_default, vendor_id,
  get_object, as_dictionary, choose_configuration, same_string, configured, find_named,
}

chosen-All {ℓ κ} :
    {V : Type ℓ} (P : V → Type κ) (b : Bool) (w : V) (later : Option V) {v : V}
    → P w
    → ((later ≡ some v) → P v)
    → (if b then some w else later) ≡ some v
    → P v
chosen-All P true w later h rest e = subst P (cc) h
chosen-All P false w later h rest e = rest e

-- What a table gives satisfies what all of its entries satisfy.
pub find_named-All {ℓ κ} :
    {V : Type ℓ} (P : V → Type κ) (name : Bytes) (table : List (Bytes × V)) {v : V}
    → All (λ (r : Bytes × V). P r.1) table
    → find_named name table ≡ some v
    → P v
unfolding find_named
find_named-All P name [] h e = absurd (cc)
find_named-All P name ((n, w) ∷ table) h e =
    chosen-All P (same_string name n) w (find_named name table) h.0
      (find_named-All P name table h.1) e

-- The strings of the platform fit the arrays that they are copied to.
pub record IsFitting (p : Platform) : Type 0 where
  pub vendor_fits : (v : Bytes) → p.oem_vendor ≡ some v → fits_array v ≡ true
  pub product_fits : (v : Bytes) → board_or_product p ≡ some v → fits_array v ≡ true

-- The dictionary that stands in another one behind a path of names.
unfoldable at_path : List Bytes → Dictionary → Option Dictionary
unfolding get_object bind
at_path [] d = some d
at_path (name ∷ names) d = bind (as_dictionary (get_object name d)) (at_path names)

-- The vendor's short name and the board, where there are both.
abbrev path_with : Option Bytes → Option Bytes → Option (List Bytes)
unfolding bind
path_with vendor product = bind vendor (λ v.
    bind (vendor_id (c_str v)) (λ nick. bind product (λ board. some (nick ∷ c_str board ∷ []))))

-- Where the configuration of a platform stands: the vendor's short name, then the board, or the
-- product if the platform names no board.
unfoldable path_of : Platform → Option (List Bytes)
unfolding or_else
path_of p = path_with p.oem_vendor (or_else p.oem_board p.oem_product)

-- The configuration at the platform's path, or else the one at "Default".
unfoldable pub expected_configuration : Dictionary → Option Platform → Option Dictionary
unfolding bind or_else at_path path_of
expected_configuration lists p =
    or_else (bind p (λ q. bind (path_of q) (λ path. at_path path lists)))
      (at_path (codes "Default" ∷ []) lists)

bind-some : (r : Option Dictionary) → bind r some ≡ r
unfolding bind
bind-some none = refl
bind-some (some d) = refl

board_or_product-or_else : (p : Platform) → board_or_product p ≡ or_else p.oem_board p.oem_product
unfolding or_else
board_or_product-or_else p = go p.oem_board
  where
    go :
        (board : Option Bytes)
        → elim board [ none ↦ p.oem_product | some b ↦ some b ] ≡ or_else board p.oem_product
    go none = refl
    go (some b) = refl

-- A test that holds, in front of a crash.
guarded :
    (b : Bool) (o : Outcome (Option Dictionary)) (r : Option Dictionary)
    → b ≡ true
    → o ≡ done r
    → (if b then o else crashed) ≡ done r
guarded true o r e h = h
guarded false o r e h = absurd (cc)

linked-at_path :
    (link : Option Dictionary) (product : Bytes)
    → linked link product ≡ done (bind link (at_path (c_str product ∷ [])))
unfolding linked at_path bind configured
linked-at_path none product = refl
linked-at_path (some link) product =
    ap done (sym (bind-some (as_dictionary (get_object (c_str product) link))))

configuration_of_board-at_path :
    (lists : Dictionary) (nick : Bytes) (product : Option Bytes)
    → ((v : Bytes) → product ≡ some v → fits_array v ≡ true)
    → configuration_of_board (some lists) nick product
      ≡ done (bind product (λ board. at_path (nick ∷ c_str board ∷ []) lists))
unfolding configuration_of_board at_path bind
configuration_of_board-at_path lists nick none h = refl
configuration_of_board-at_path lists nick (some product) h =
    guarded (fits_array product) _ _ (h product refl)
      (linked-at_path (as_dictionary (get_object nick lists)) product)

configuration_of_nick-at_path :
    (lists : Dictionary) (nick product : Option Bytes)
    → ((v : Bytes) → product ≡ some v → fits_array v ≡ true)
    → configuration_of_nick (some lists) nick product
      ≡ done (
          bind
            (bind nick (λ n. bind product (λ board. some (n ∷ c_str board ∷ []))))
            (λ path. at_path path lists))
unfolding bind
configuration_of_nick-at_path lists none product h = refl
configuration_of_nick-at_path lists (some nick) none h =
    configuration_of_board-at_path lists nick none h
configuration_of_nick-at_path lists (some nick) (some product) h =
    configuration_of_board-at_path lists nick (some product) h

configuration_of_vendor-at_path :
    (lists : Dictionary) (vendor product : Option Bytes)
    → ((v : Bytes) → vendor ≡ some v → fits_array v ≡ true)
    → ((v : Bytes) → product ≡ some v → fits_array v ≡ true)
    → configuration_of_vendor (some lists) vendor product
      ≡ done (bind (path_with vendor product) (λ path. at_path path lists))
unfolding configuration_of_vendor bind
configuration_of_vendor-at_path lists none product g h = refl
configuration_of_vendor-at_path lists (some vendor) product g h =
    guarded (fits_array vendor) _ _ (g vendor refl)
      (configuration_of_nick-at_path lists (vendor_id (c_str vendor)) product h)

or_default-at_path :
    (lists : Dictionary) (r : Option Dictionary)
    → or_default (some lists) (done r) ≡ done (or_else r (at_path (codes "Default" ∷ []) lists))
unfolding or_default or_else at_path bind
or_default-at_path lists none =
    ap done (sym (bind-some (as_dictionary (get_object (codes "Default") lists))))
or_default-at_path lists (some c) = refl

-- With a list of configurations, the choice is the dictionary under the short name of the platform's
-- vendor and the name of its board, or of its product if it names no board, and "Default" of the
-- list where a part of that is missing or there is no platform. The strings of the platform have to
-- fit the arrays of 40 bytes that they are copied to.
pub choose_configuration-at_path :
    (lists : Dictionary) (p : Option Platform)
    → ((q : Platform) → p ≡ some q → IsFitting q)
    → choose_configuration (some lists) p ≡ done (expected_configuration lists p)
unfolding choose_configuration expected_configuration path_of bind
choose_configuration-at_path lists none f = or_default-at_path lists none
choose_configuration-at_path lists (some p) f =
    ap (or_default (some lists)) (
      configuration_of_vendor-at_path lists p.oem_vendor (board_or_product p) (f p refl).vendor_fits
        (f p refl).product_fits)
    ∙ or_default-at_path lists
        (bind (path_with p.oem_vendor (board_or_product p)) (λ path. at_path path lists))
    ∙ ap
        (λ product. done (
          or_else (bind (path_with p.oem_vendor product) (λ path. at_path path lists))
            (at_path (codes "Default" ∷ []) lists)))
        (board_or_product-or_else p)

-- Without a list of configurations, a known vendor and a board make the start of the plugin use a
-- null pointer.
pub choose_configuration_crashes :
    (p : Platform) (vendor nick board : Bytes)
    → p.oem_vendor ≡ some vendor
    → fits_array vendor ≡ true
    → vendor_id (c_str vendor) ≡ some nick
    → board_or_product p ≡ some board
    → choose_configuration none (some p) ≡ crashed
unfolding choose_configuration or_default configuration_of_vendor configuration_of_board
choose_configuration_crashes p vendor nick board e fit known b =
    ap (λ v. or_default none (configuration_of_vendor none v (board_or_product p))) e
    ∙ (ap
          (λ t. or_default none (
            if t
            then configuration_of_nick none (vendor_id (c_str vendor)) (board_or_product p)
            else crashed))
          fit
        ∙ (ap (λ n. or_default none (configuration_of_nick none n (board_or_product p))) known
            ∙ ap (λ q. or_default none (configuration_of_board none nick q)) b))
