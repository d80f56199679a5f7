-- ===== src/Storage/Tests.antt =====
-- The backends on small stores.
use swaybot.Prelude.{
  String, ◌≡◌, ◌≢◌, ◌⊎◌, refl, true, false, Option, none, some, List, [], ◌∷◌, ◌++◌, arith, ok,
  ◌>>=◌, ◌==◌, string_eq, eq_iff, if◌then◌else◌,
}
use swaybot.Prelude.Dict.{lookup, insert, erase}
use swaybot.Json.{Value, Fields, int, arr, obj, nil, cons, end, field}
use swaybot.Storage.Records.{items_snoc, normalize_stream_data}
use swaybot.Storage.InMemory
use swaybot.Storage.InMemory.{Data, safe_key, elem-list_keys, exists-create}
use swaybot.Storage.Files.{Directory, path, atomic_write, write_temp, replace_file}
use swaybot.Storage.JsonFile
use swaybot.Storage.JsonFile.{load_stream-append_file, load-save_file, load-create}
use swaybot.Storage.JsonLines
use swaybot.Storage.JsonLines.{load_stream-append_line}

abbrev one : Fields
one = field "n" (int true 1) end

abbrev before : Data
before = ("k", arr nil) ∷ ("j", obj end) ∷ []

abbrev after : Data
after = ("k", arr (cons (obj one) nil)) ∷ ("j", obj end) ∷ []

load_stream-append_example :
    (InMemory.load_stream "k" none after
      ≡ (InMemory.load_stream "k" none before >>= λ rs. ok (rs ++ obj one ∷ [])))
    × ((◌≡◌ {A = String} "j" "k") ⊎ (InMemory.load "j" after ≡ InMemory.load "j" before))
unfolding InMemory.append safe_key items_snoc lookup insert
load_stream-append_example = InMemory.load_stream-append "k" "j" one before after refl

differ : (s t : String) → (s == t) ≡ false → s ≢ t
differ s t h q = let e = (eq_iff s t).1 q in ground (arith, e, h)

not_empty : ◌≢◌ {A = String} "new" ""
not_empty = differ "new" "" refl

-- A `json.loads` of three texts, and a `json.dumps` of two values.
abbrev loads : String → Option Value
loads t =
    if t == "[]"
    then some (arr nil)
    else if t == "[{}]"
    then some (arr (cons (obj end) nil))
    else if t == "{}"
    then some (obj end)
    else none

abbrev dumps : Value → String
dumps (obj _) = "{}"
dumps _ = "[{}]"

abbrev empty_list : Directory
empty_list = record { files = ("k", "[]") ∷ []; temps = [] }

abbrev listed : Directory
listed = record { files = ("k", "[{}]") ∷ []; temps = [] }

load_stream-append_file_example :
    (JsonFile.load_stream loads dumps "k" none listed
      ≡ ok (normalize_stream_data (arr nil) ++ obj end ∷ []))
    × ((◌≡◌ {A = String} "j" "k")
        ⊎ (JsonFile.load loads dumps "j" listed ≡ JsonFile.load loads dumps "j" empty_list))
unfolding JsonFile.append JsonFile.load JsonFile.save path atomic_write write_temp replace_file
    items_snoc lookup insert erase
load_stream-append_file_example =
    load_stream-append_file loads dumps "k" "j" end empty_list listed (arr nil)
      (arr (cons (obj end) nil)) refl refl refl refl

abbrev no_files : Directory
no_files = record { files = []; temps = [] }

abbrev touched : Directory
touched = record { files = ("k", "") ∷ []; temps = [] }

-- A `splitlines` of the texts of at most one such line.
abbrev splitlines : String → List String
splitlines t = if t == "{}\n" then "{}" ∷ [] else []

abbrev line : Directory
line = record { files = ("k", "{}\n") ∷ []; temps = [] }

not_blank : ◌≢◌ {A = String} "{}" ""
not_blank = differ "{}" "" refl

load_stream-append_line_example :
    (JsonLines.load_stream loads dumps splitlines (λ s. s) "k" none line ≡ (
      JsonLines.load_stream loads dumps splitlines (λ s. s) "k" none no_files >>= λ rs.
      ok (rs ++ obj end ∷ [])))
    × ((◌≡◌ {A = String} "j" "k")
        ⊎ (JsonLines.load_stream loads dumps splitlines (λ s. s) "j" none line
            ≡ JsonLines.load_stream loads dumps splitlines (λ s. s) "j" none no_files))
unfolding JsonLines.append path lookup insert
load_stream-append_line_example =
    load_stream-append_line loads dumps splitlines (λ s. s) "k" "j" end no_files line refl not_blank
      refl refl refl
