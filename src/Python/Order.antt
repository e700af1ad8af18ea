-- ===== src/Python/Order.antt =====
-- Python's order of text, by the numbers of the characters, and `sorted` of a list of texts.
pub mod Laws
use Prim.Native.Char.{code}
use bybit_intraday_trading_b.Prelude.{
  String, Bool, true, false, ◌&&◌, ◌||◌, List, [], ◌∷◌, ◌==◌, ltb, if◌then◌else◌,
}

-- `s < t`
unfoldable pub text_less : String → String → Bool
text_less String.[] String.[] = false
text_less String.[] (String.◌∷◌ d t) = true
text_less (String.◌∷◌ c s) String.[] = false
text_less (String.◌∷◌ c s) (String.◌∷◌ d t) =
    ltb (code c) (code d) || (code c == code d && text_less s t)

-- insertion before the first text that is not smaller
unfoldable pub insert_text : String → List String → List String
insert_text t [] = t ∷ []
insert_text t (u ∷ rest) =
    let later = insert_text t rest in if text_less u t then u ∷ later else t ∷ (u ∷ rest)

-- `sorted(…)`
unfoldable pub sorted_texts : List String → List String
sorted_texts [] = []
sorted_texts (t ∷ rest) = insert_text t (sorted_texts rest)
