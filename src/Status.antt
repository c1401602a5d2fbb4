-- ===== src/Status.antt =====
-- include/mini-leveldb/status.h and src/util/status.cc: the outcome of an operation.
mod Tests
use mini_leveldb.Prelude.{
  ℕ, ◌==◌, if◌then◌else◌, Bool, true, false, [], ◌∷◌, ◌++◌, Bytes, length, codes,
}

pub data Code : Type 0 where
  ok not_found corruption not_supported invalid_argument io_error : Code

pub record Status : Type 0 where
  pub code : Code
  pub msg : Bytes

-- `Status::OK()`
abbrev pub success : Status
success = record { code = ok; msg = [] }

-- The private constructor of the error factories.
unfoldable pub make : Code → Bytes → Bytes → Status
make code msg msg2 = record {
  code = code;
  msg = if length msg2 == 0 then msg else msg ++ codes ": " ++ msg2;
}

-- The factories with their second message left out, as the program calls them.
abbrev pub corruption_status : Bytes → Status
corruption_status msg = record { code = corruption; msg = msg }

abbrev pub io_error_status : Bytes → Status
io_error_status msg = record { code = io_error; msg = msg }

abbrev pub invalid_argument_status : Bytes → Status
invalid_argument_status msg = record { code = invalid_argument; msg = msg }

abbrev pub not_found_status : Bytes → Status
not_found_status msg = record { code = not_found; msg = msg }

abbrev is_ok_code : Code → Bool
is_ok_code ok = true
is_ok_code _ = false

abbrev pub is_ok : Status → Bool
is_ok s = is_ok_code s.code

code_text : Code → Bytes
code_text ok = codes "OK"
code_text not_found = codes "NotFound: "
code_text corruption = codes "Corruption: "
code_text not_supported = codes "Not implemented: "
code_text invalid_argument = codes "Invalid argument: "
code_text io_error = codes "IO error: "

-- The switch's default case is for codes outside the enumeration, which no constructor makes.
unfoldable pub to_string : Status → Bytes
unfolding code_text
to_string s = if is_ok s then codes "OK" else code_text s.code ++ s.msg
