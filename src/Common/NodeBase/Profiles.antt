-- ===== src/Common/NodeBase/Profiles.antt =====
-- node_base.py and control_node.py: the parameters that the hardware profile asks for. The parameters of
-- a node are what ROS answers to `has_parameter` and `get_parameter`: `none` is an undeclared one.
use ai_vision_inspection.Base.{
  String, Bool, true, false, is_empty, if◌then◌else◌, List, [], ◌∷◌, Option, none, some, ℤ, All,
  arith, ◌≡◌, ◌≢◌, refl, ◌⊎◌, ◌↔◌,
}
use ai_vision_inspection.Common.NodeBase.{Profile, sim, hardware}

pub data ParameterValue : Type 0 where
  unset : ParameterValue
  text_value : String → ParameterValue
  integer_value : ℤ → ParameterValue
  list_value : List String → ParameterValue

-- `value is None or value == "" or value == []`
abbrev is_blank : ParameterValue → Bool
is_blank unset = true
is_blank (text_value t) = is_empty t
is_blank (integer_value i) = false
is_blank (list_value []) = true
is_blank (list_value (t ∷ ts)) = false

abbrev pub is_missing : Option ParameterValue → Bool
is_missing none = true
is_missing (some v) = is_blank v

unfoldable pub missing_of : (String → Option ParameterValue) → List String → List String
missing_of parameters [] = []
missing_of parameters (key ∷ keys) =
    let rest = missing_of parameters keys in
    if is_missing (parameters key) then key ∷ rest else rest

-- Concatenation. `String` has its own `[]` and `∷`.
abbrev joined : String → String → String
joined String.[] t = t
joined (String.◌∷◌ c s) t = String.◌∷◌ c (joined s t)

-- `node_id` is the name of the node.
unfoldable pub validate_hardware_profile :
    String → Profile → (String → Option ParameterValue) → List String → List String
validate_hardware_profile node_id sim parameters keys = []
validate_hardware_profile node_id hardware parameters [] =
    joined node_id ".hardware_validation_not_implemented" ∷ []
validate_hardware_profile node_id hardware parameters (key ∷ keys) =
    missing_of parameters (key ∷ keys)

module _ (parameters : String → Option ParameterValue) where
  missing_of-All :
      (keys : List String)
      → missing_of parameters keys ≡ []
      → All (λ key. is_missing (parameters key) ≡ false) keys
  unfolding missing_of
  missing_of-All [] h = tt
  missing_of-All (key ∷ keys) h = ground (arith, missing_of-All keys)

  missing_of-All' :
      (keys : List String)
      → All (λ key. is_missing (parameters key) ≡ false) keys
      → missing_of parameters keys ≡ []
  unfolding missing_of
  missing_of-All' [] h = refl
  missing_of-All' (key ∷ keys) h = ground (arith, missing_of-All' keys)

  -- A node on the hardware profile has no missing parameter exactly when it asks for one at least and
  -- each that it asks for is declared and not blank; the sim profile asks for nothing.
  validate_hardware_profile_complete :
      (node_id : String) (profile : Profile) (keys : List String)
      → (validate_hardware_profile node_id profile parameters keys ≡ [])
        ↔ ((profile ≡ sim) ⊎ ((keys ≢ []) × All (λ key. is_missing (parameters key) ≡ false) keys))
  unfolding validate_hardware_profile
  validate_hardware_profile_complete node_id sim keys = ground arith
  validate_hardware_profile_complete node_id hardware [] = ground arith
  validate_hardware_profile_complete node_id hardware (key ∷ keys) =
      ground (arith, missing_of-All (key ∷ keys), missing_of-All' (key ∷ keys))
