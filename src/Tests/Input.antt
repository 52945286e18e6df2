-- ===== src/Tests/Input.antt =====
-- kernel/keyboard.c, kernel/kstring.c and the numbers and lines of kernel/shell.c.
use fur_os.Installer.{passwd_line, root_line, user_rest, user_tail}
use fur_os.Installer.Lines.{passwd_line-take}
use fur_os.Prelude.{◌≡◌, refl, ◌↔◌, true, some, [], ◌∷◌, ◌++◌, arith, codes, take}
use fur_os.KString.{str_eq, kstrcmp}
use fur_os.KString.Compare.{cstr, str_eq_iff}
use fur_os.Keyboard.{keyboard_init, on_scancode, keyboard_get_key}
use fur_os.Keyboard.Keys.{IsKey, keyboard_get_key-IsKey}
use fur_os.Shell.Numbers.{parse_u32, parse_uid, shell_print_uint}
use fur_os.Shell.Numbers.Decimal.{
  numeral, low32, at_most, parse_uid-numeral, parse_u32-shell_print_uint,
}
use fur_os.Shell.Line.{shell_parse}
use fur_os.Shell.Line.Words.{words, shell_parse-words}

arrow_up : keyboard_get_key keyboard_init (0xE0 ∷ 0x48 ∷ []) ≡ some (0x100, keyboard_init, [])
unfolding keyboard_get_key on_scancode keyboard_init
arrow_up = refl

keyboard_get_key-IsKey_example : IsKey 0x100
keyboard_get_key-IsKey_example =
    keyboard_get_key-IsKey keyboard_init (0xE0 ∷ 0x48 ∷ []) 0x100 keyboard_init [] arrow_up

str_eq_iff_example :
    (str_eq (codes "git") (codes "git") ≡ true) ↔ (cstr (codes "git") ≡ cstr (codes "git"))
str_eq_iff_example = str_eq_iff (codes "git") (codes "git")

parse_uid-numeral_example :
    parse_uid (codes "4294967296") ≡ at_most 65535 (low32 (numeral 10 (codes "4294967296")))
parse_uid-numeral_example =
    parse_uid-numeral (codes "4294967296") (unfold str_eq kstrcmp in refl)
      (unfold str_eq kstrcmp in refl)

parse_u32-shell_print_uint_example : parse_u32 (shell_print_uint 1000) ≡ some 1000
parse_u32-shell_print_uint_example = parse_u32-shell_print_uint 1000 (omega arith)

shell_parse-words_example :
    shell_parse (codes "  ls  /home ") 16 ≡ take 16 (words (codes "  ls  /home "))
shell_parse-words_example = shell_parse-words (codes "  ls  /home ") 16

-- The run of the words.
two_words : shell_parse (codes "  ls  /home ") 16 ≡ codes "ls" ∷ codes "/home" ∷ []
unfolding shell_parse
two_words = refl

passwd_line-take_example :
    passwd_line (codes "ada")
    ≡ take 120 ((((root_line ++ codes "ada") ++ user_rest) ++ codes "ada") ++ user_tail)
passwd_line-take_example = passwd_line-take (codes "ada") (omega arith)
