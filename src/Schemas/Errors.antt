-- ===== src/Schemas/Errors.antt =====
-- The dict of errors that a validator returns: the fields with their messages.
use realynk.Base.{Bool, true, false, List, [], ◌∷◌, Text, codes}

abbrev pub Errors : Type 0
Errors = List (Text × Text)

-- `errors[name] = message` under a test
abbrev pub error_when : Bool → Text → Text → Errors
error_when true name message = (name, message) ∷ []
error_when false name message = []

abbrev pub no_object : Errors
no_object = (codes "body", codes "Request body must be a JSON object") ∷ []
