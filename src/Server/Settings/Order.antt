-- ===== src/Server/Settings/Order.antt =====
-- Game mode and password are found in either order, wherever they stand in the settings.
use Prim.Native.String.{String}
use freekill_asio.Base.{
  suc, ◌≡◌, refl, ◌∙◌, if◌then◌else◌, Bool, true, false, not, ◌&&◌, List, [], ◌∷◌, ◌++◌, Option,
  some, leb, arith,
}
use freekill_asio.Server.Settings.{
  Pair, Found, has_word, read_pairs, read_settings, read_loaded, nothing_found,
}

abbrev is_mode : Pair → Bool
is_mode p = has_word p.key "gameMode"

abbrev is_password : Pair → Bool
is_password p = has_word p.key "password"

unfoldable pub all_others : List Pair → Bool
all_others [] = true
all_others (p ∷ ps) = let rest = all_others ps in not (is_mode p) && not (is_password p) && rest

read_pairs-others :
    (ps qs : List Pair) (f : Found)
    → all_others ps ≡ true
    → leb 2 f.iter ≡ false
    → read_pairs (ps ++ qs) f ≡ read_pairs qs f
unfolding all_others read_pairs
read_pairs-others [] qs f h i = refl
read_pairs-others (p ∷ ps) qs f h i =
    ground (arith, read_pairs-others ps qs f (ground (arith, h)) i, h, i)

abbrev with_mode : String → Found → Found
with_mode v f = record f { game_mode = v; iter = suc f.iter }

abbrev with_password : String → Found → Found
with_password v f = record f { password = v; iter = suc f.iter }

read_pairs-mode :
    (p : Pair) (v : String) (qs : List Pair) (f : Found)
    → p.value ≡ some v
    → is_mode p ≡ true
    → read_pairs (p ∷ qs) f
      ≡ (if leb 2 (suc f.iter) then with_mode v f else read_pairs qs (with_mode v f))
unfolding read_pairs
read_pairs-mode p v qs f e m = rw (m, e) refl

read_pairs-password :
    (p : Pair) (v : String) (qs : List Pair) (f : Found)
    → p.value ≡ some v
    → is_password p ≡ true
    → is_mode p ≡ false
    → read_pairs (p ∷ qs) f
      ≡ (if leb 2 (suc f.iter) then with_password v f else read_pairs qs (with_password v f))
unfolding read_pairs
read_pairs-password p v qs f e w m = rw (m, w, e) refl

loaded :
    (cbor_load : String → Option (List Pair)) (settings : String) (ps : List Pair) (f : Found)
    → cbor_load settings ≡ some ps
    → read_pairs ps nothing_found ≡ f
    → read_settings cbor_load settings ≡ (f.game_mode, f.password)
unfolding read_settings read_loaded
loaded cbor_load settings ps f h e = rw (h, e) refl

-- If a map holds one pair for the mode and one for the password, with text as their values, and
-- other words before and between them, both are found, whatever follows.
pub read_settings_lem :
    (cbor_load : String → Option (List Pair)) (settings mode pw : String) (m p : Pair)
    (before between after : List Pair)
    → m.value ≡ some mode
    → p.value ≡ some pw
    → is_mode m ≡ true
    → is_password p ≡ true
    → is_mode p ≡ false
    → all_others before ≡ true
    → all_others between ≡ true
    → (cbor_load settings ≡ some (before ++ (m ∷ (between ++ (p ∷ after))))
        → read_settings cbor_load settings ≡ (mode, pw))
      × (cbor_load settings ≡ some (before ++ (p ∷ (between ++ (m ∷ after))))
          → read_settings cbor_load settings ≡ (mode, pw))
read_settings_lem cbor_load settings mode pw m p before between after mv pv im ip nm ob oe = (
  λ h.
      let e =
        read_pairs-others before (m ∷ (between ++ (p ∷ after))) nothing_found ob refl
        ∙ read_pairs-mode m mode (between ++ p ∷ after) nothing_found mv im
        ∙ read_pairs-others between (p ∷ after) (with_mode mode nothing_found) oe refl
        ∙ read_pairs-password p pw after (with_mode mode nothing_found) pv ip nm in
      loaded cbor_load settings _ _ h e,
  λ h.
      let e =
        read_pairs-others before (p ∷ (between ++ (m ∷ after))) nothing_found ob refl
        ∙ read_pairs-password p pw (between ++ m ∷ after) nothing_found pv ip nm
        ∙ read_pairs-others between (m ∷ after) (with_password pw nothing_found) oe refl
        ∙ read_pairs-mode m mode after (with_password pw nothing_found) mv im in
      loaded cbor_load settings _ _ h e,
)
