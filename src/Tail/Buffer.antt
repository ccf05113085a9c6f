-- ===== src/Tail/Buffer.antt =====
-- What the tail uses of Go's texts of bytes and of bufio.Reader.
use Prim.Native.Char.{Char, code}
use Prim.Native.String as NativeString
use kanyigo.Base.{ℕ, zero, suc, String, Bool, true, false, List, [], ◌∷◌, ◌==◌, if◌then◌else◌}

-- A character stands for each byte.
abbrev pub Bytes : Type 0
Bytes = List Char

-- The text that holds the bytes.
unfoldable pub text_of : Bytes → String
text_of [] = NativeString.[]
text_of (c ∷ s) = NativeString.◌∷◌ c (text_of s)

-- The bytes from an offset on; none behind the end.
unfoldable pub drop : ℕ → Bytes → Bytes
drop zero s = s
drop (suc n) [] = []
drop (suc n) (c ∷ s) = drop n s

unfoldable pub is_newline : Char → Bool
is_newline c = code c == 10

-- reader.ReadString('\n'): the bytes through the first newline, or all there are and io.EOF.
unfoldable pub read_string : Bytes → Bytes × Bool
read_string [] = ([], true)
read_string (c ∷ s) =
    let (chunk, eof) = read_string s in if is_newline c then (c ∷ [], false) else (c ∷ chunk, eof)

-- strings.HasSuffix with "\n"
unfoldable pub ends_line : Bytes → Bool
ends_line [] = false
ends_line (c ∷ []) = is_newline c
ends_line (c ∷ d ∷ s) = ends_line (d ∷ s)

-- strings.TrimSuffix with "\n"
unfoldable pub trim_newline : Bytes → Bytes
trim_newline [] = []
trim_newline (c ∷ []) = if is_newline c then [] else c ∷ []
trim_newline (c ∷ d ∷ s) = c ∷ trim_newline (d ∷ s)
