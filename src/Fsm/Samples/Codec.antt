-- ===== src/Fsm/Samples/Codec.antt =====
-- Sample data: a text format for the persisted state that reads back what it wrote, for every state. A
-- `1` stands before each character, digit or entry, and a `0` ends a text, a number or a list.
use Prim.Native.Char.{Char, code}
use swf4go.Prelude.{
  ℕ, zero, suc, String, ◌≡◌, refl, Option, none, some, [], ◌∷◌, eqb, length, if◌then◌else◌,
}
use swf4go.Prelude.Map.{Map}
use swf4go.Correlator.{ActivityInfo}
use swf4go.Fsm.Serialization.{SerializedState}

abbrev one : Char
one = "1"

abbrev nought : Char
nought = "0"

unfoldable pub put_ℕ : ℕ → String → String
put_ℕ zero rest = String.◌∷◌ nought rest
put_ℕ (suc n) rest = String.◌∷◌ one (put_ℕ n rest)

more_ℕ : Option (ℕ × String) → Option (ℕ × String)
more_ℕ none = none
more_ℕ (some (n, rest)) = some (suc n, rest)

unfoldable pub get_ℕ : String → Option (ℕ × String)
unfolding more_ℕ
get_ℕ String.[] = none
get_ℕ (String.◌∷◌ c rest) = if eqb (code c) 48 then some (0, rest) else more_ℕ (get_ℕ rest)

get-put_ℕ : (n : ℕ) (rest : String) → get_ℕ (put_ℕ n rest) ≡ some (n, rest)
unfolding get_ℕ put_ℕ
get-put_ℕ zero rest = refl
get-put_ℕ (suc n) rest = rw (get-put_ℕ n rest)

put_text : String → String → String
put_text String.[] rest = String.◌∷◌ nought rest
put_text (String.◌∷◌ c s) rest = String.◌∷◌ one (String.◌∷◌ c (put_text s rest))

more_text : Char → Option (String × String) → Option (String × String)
more_text c none = none
more_text c (some (s, rest)) = some (String.◌∷◌ c s, rest)

get_text : String → Option (String × String)
unfolding more_text
get_text String.[] = none
get_text (String.◌∷◌ c String.[]) = if eqb (code c) 48 then some ("", "") else none
get_text (String.◌∷◌ c (String.◌∷◌ d rest)) =
    if eqb (code c) 48 then some ("", String.◌∷◌ d rest) else more_text d (get_text rest)

get_text_end : (rest : String) → get_text (String.◌∷◌ nought rest) ≡ some ("", rest)
unfolding get_text
get_text_end String.[] = refl
get_text_end (String.◌∷◌ d rest) = refl

get-put_text : (s rest : String) → get_text (put_text s rest) ≡ some (s, rest)
unfolding get_text put_text
get-put_text String.[] rest = get_text_end rest
get-put_text (String.◌∷◌ c s) rest = rw (get-put_text s rest)

-- One step of reading after another.
infixl 5 ◌>>=◌
abbrev ◌>>=◌ : {A B : Type 0} → Option A → (A → Option B) → Option B
none >>= k = none
some a >>= k = k a

put_info : String × ActivityInfo → String → String
unfolding put_text
put_info (key, info) rest = put_text key (
    put_text info.activity_id
      (put_text info.activity_type.name (put_text info.activity_type.version rest)))

get_info : String → Option ((String × ActivityInfo) × String)
unfolding get_text
get_info s = do
  (key, s₁) ← get_text s
  (id, s₂) ← get_text s₁
  (name, s₃) ← get_text s₂
  (version, s₄) ← get_text s₃
  some (
    (key, record { activity_id = id; activity_type = record { name = name; version = version } }),
    s₄,
  )

get-put_info :
    (e : String × ActivityInfo) (rest : String) → get_info (put_info e rest) ≡ some (e, rest)
unfolding get_info put_info
get-put_info (key, info) rest = simp get-put_text

put_infos : Map ActivityInfo → String → String
unfolding put_info
put_infos [] rest = rest
put_infos (e ∷ es) rest = put_info e (put_infos es rest)

get_infos : ℕ → String → Option (Map ActivityInfo × String)
unfolding get_info
get_infos zero s = some ([], s)
get_infos (suc n) s = do (e, s₁) ← get_info s; (es, s₂) ← get_infos n s₁; some (e ∷ es, s₂)

get-put_infos :
    (m : Map ActivityInfo) (rest : String)
    → get_infos (length m) (put_infos m rest) ≡ some (m, rest)
unfolding get_infos put_infos
get-put_infos [] rest = refl
get-put_infos (e ∷ es) rest = simp (get-put_info, get-put_infos es rest)

put_activities : Option (Map ActivityInfo) → String → String
unfolding put_ℕ put_infos
put_activities none rest = put_ℕ 0 rest
put_activities (some m) rest = put_ℕ (suc (length m)) (put_infos m rest)

get_activities_of : ℕ → String → Option (Option (Map ActivityInfo) × String)
unfolding get_infos
get_activities_of zero s = some (none, s)
get_activities_of (suc n) s = do (m, s₁) ← get_infos n s; some (some m, s₁)

get_activities : String → Option (Option (Map ActivityInfo) × String)
unfolding get_ℕ get_activities_of
get_activities s = do (n, s₁) ← get_ℕ s; get_activities_of n s₁

get-put_activities :
    (o : Option (Map ActivityInfo)) (rest : String)
    → get_activities (put_activities o rest) ≡ some (o, rest)
unfolding get_activities put_activities
get-put_activities none rest = refl
get-put_activities (some m) rest = simp (get-put_ℕ (suc (length m)), get-put_infos)

unfoldable pub put_state : SerializedState → String
unfolding put_ℕ put_text put_activities
put_state s = put_ℕ s.replication_data.state_version (
    put_text s.replication_data.state_name
      (put_text s.replication_data.state_data (put_activities s.pending_activities.activities "")))

unfoldable pub get_state : String → Option SerializedState
unfolding get_ℕ get_text get_activities
get_state s = do
  (version, s₁) ← get_ℕ s
  (name, s₂) ← get_text s₁
  (value, s₃) ← get_text s₂
  (activities, s₄) ← get_activities s₃
  some (record {
    replication_data = record { state_version = version; state_name = name; state_data = value };
    pending_activities = record { activities = activities };
  })

pub get-put_state : (s : SerializedState) → get_state (put_state s) ≡ some s
unfolding get_state put_state
get-put_state s = simp (get-put_ℕ, get-put_text, get-put_activities)
