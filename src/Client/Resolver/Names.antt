-- ===== src/Client/Resolver/Names.antt =====
-- Under which names Get finds a message.
use mathlib.Core.List.{foldl, map-append}
use mathlib.Core.List.Memᴰ
use stencil.Base.{
  String, List, [], ◌∷◌, ◌++◌, map, Memᴰ, Option, none, some, ◌≡◌, ◌≢◌, refl, sym, ap, ◌∙◌, ◌⊎◌,
  inl, inr, str_eq, Bool-cases, eq_iff,
}
use stencil.Base.Strings.{replace_first-append}
use stencil.Base.Sprintf.{sprintf}
use Prim.Native.String.{◌++◌ as str_append}
use stencil.Client.Resolver.{
  MessageDescriptors, no_messages, message_with, FileDescriptor, Registry, Resolver,
  get_java_package, default_key_fn, put, get, add_extensions, add_enums, add_from_messages,
  register_file, register_files,
}

-- The full names of the messages, each before those nested in it.
abbrev pub full_names : MessageDescriptors → List String
full_names no_messages = []
full_names (message_with msg exts enums nested rest) = msg ∷ (full_names nested ++ full_names rest)

-- The messages of the files, each with its file.
abbrev pub declared : List FileDescriptor → List (FileDescriptor × String)
declared [] = []
declared (file ∷ files) = map (λ n. (file, n)) (full_names file.messages) ++ declared files

foldl-append :
    {A B : Type 0} (f : B → A → B) (xs ys : List A) (b : B)
    → foldl f b (xs ++ ys) ≡ foldl f (foldl f b xs) ys
foldl-append f [] ys b = refl
foldl-append f (x ∷ xs) ys b = foldl-append f xs ys (f b x)

abbrev put_name : (String → Option String) → FileDescriptor × String → String → Option String
put_name m e = put m (default_key_fn e.0 e.1) e.1

put_all-cases :
    (es : List (FileDescriptor × String)) (m : String → Option String) (k : String)
    → ((file : FileDescriptor) × ((name : String) × Memᴰ (file, name) es
          × ((default_key_fn file name ≡ k) × (foldl put_name m es k ≡ some name))))
      ⊎ (((file : FileDescriptor) (name : String)
            → Memᴰ (file, name) es
            → default_key_fn file name ≢ k)
          × (foldl put_name m es k ≡ m k))
unfolding put
put_all-cases [] m k = inr (λ file name i. absurd (Memᴰ.not-nil i), refl)
put_all-cases (x ∷ es) m k = elim (put_all-cases es (put_name m x) k) [
  | inl (file, (name, i, (a, b))) ↦ inl (file, (name, Memᴰ.tail i, (a, b)))
  | inr (other, e) ↦ elim (Bool-cases (str_eq k (default_key_fn x.0 x.1))) [
    | inl same ↦ inl (
      x.0,
      (
        x.1,
        Memᴰ.head refl,
        (sym ((eq_iff k (default_key_fn x.0 x.1)).0 same), rw (put, same) at e),
      ),
    )
    | inr differs ↦ inr (
      λ file name i. elim (Memᴰ.cases_cons i) [
        | inl e' ↦ λ h. cc (
          differs,
          (eq_iff k (default_key_fn x.0 x.1)).1 (sym h ∙ ap (λ z. default_key_fn z.0 z.1) e'),
        )
        | inr i' ↦ other file name i'
      ],
      rw (put, differs) at e,
    )
  ]
]

module _ {T M : Type 0} (registry : Registry T M) where
  add_from_messages-names :
      (file : FileDescriptor) (ms : MessageDescriptors) (r : Resolver T)
      → (add_from_messages registry file ms r).java_to_proto_name
        ≡ foldl put_name r.java_to_proto_name (map (λ n. (file, n)) (full_names ms))
  unfolding add_from_messages add_enums add_extensions
  add_from_messages-names file no_messages r = refl
  add_from_messages-names file (message_with msg exts enums nested rest) r =
      add_from_messages-names file rest _
      ∙ ap (λ m. foldl put_name m (map (λ n. (file, n)) (full_names rest)))
          (add_from_messages-names file nested _)
      ∙ sym (
          foldl-append put_name (map (λ n. (file, n)) (full_names nested))
            (map (λ n. (file, n)) (full_names rest)) (put_name r.java_to_proto_name (file, msg)))
      ∙ ap (foldl put_name (put_name r.java_to_proto_name (file, msg)))
          (sym (map-append (λ n. (file, n)) (full_names nested) (full_names rest)))

  register_files-names :
      (files : List FileDescriptor) (r : Resolver T)
      → (foldl (register_file registry) r files).java_to_proto_name
        ≡ foldl put_name r.java_to_proto_name (declared files)
  unfolding register_file add_enums add_extensions
  register_files-names [] r = refl
  register_files-names (file ∷ files) r =
      register_files-names files _
      ∙ ap (λ m. foldl put_name m (declared files)) (add_from_messages-names file file.messages _)
      ∙ sym (
          foldl-append put_name (map (λ n. (file, n)) (full_names file.messages)) (declared files)
            _)

  -- Get of a class name looks up, in the registry of all types, the full name of a message of the
  -- files, nested ones included, whose Java class name that is; if no message has it, the class name
  -- itself.
  pub get_resolves :
      (files : List FileDescriptor) (class_name : String)
      → ((file : FileDescriptor) × ((name : String) × Memᴰ (file, name) (declared files)
            × ((default_key_fn file name ≡ class_name)
                × (get registry (register_files registry files) class_name
                    ≡ registry.find_message_by_name (register_files registry files).types name))))
        ⊎ (((file : FileDescriptor) (name : String)
              → Memᴰ (file, name) (declared files)
              → default_key_fn file name ≢ class_name)
            × (get registry (register_files registry files) class_name
                ≡ registry.find_message_by_name (register_files registry files).types class_name))
  unfolding get
  get_resolves files class_name =
      let names : (register_files registry files).java_to_proto_name class_name
          ≡ foldl put_name (λ _. none) (declared files) class_name =
        unfold register_files in ap (λ m. m class_name) (register_files-names files _) in
      elim (put_all-cases (declared files) (λ _. none) class_name) [
        | inl (file, (name, i, (key, e))) ↦ inl (file, (name, i, (key, rw (get, names ∙ e) refl)))
        | inr (other, e) ↦ inr (other, rw (get, names ∙ e) refl)
      ]

-- The key of a message: its full name if the file has no Java package; the Java package before the
-- full name if the file has no package; and the Java package in place of the file's package, with
-- which the full name starts, otherwise.
pub default_key_fn_lem :
    (file : FileDescriptor) (rest : String)
    → ((get_java_package file ≡ "") × (default_key_fn file rest ≡ rest))
      ⊎ (((get_java_package file ≢ "")
            × (file.package_name ≡ "")
            × (default_key_fn file rest ≡ sprintf (get_java_package file ∷ "." ∷ rest ∷ [])))
          ⊎ ((get_java_package file ≢ "")
              × (file.package_name ≢ "")
              × (default_key_fn file (str_append file.package_name rest)
                  ≡ str_append (get_java_package file) rest)))
unfolding default_key_fn
default_key_fn_lem file rest =
    let java = get_java_package file in
    elim (Bool-cases (str_eq java "")) [
      | inl no_java ↦ inl ((eq_iff java "").0 no_java, rw (no_java) refl)
      | inr has_java ↦ elim (Bool-cases (str_eq file.package_name "")) [
        | inl no_pkg ↦ inr (
            inl (
              λ h. cc (has_java, (eq_iff java "").1 h),
              (eq_iff file.package_name "").0 no_pkg,
              rw (has_java, no_pkg) refl,
            ))
        | inr has_pkg ↦ inr (
            inr (
              λ h. cc (has_java, (eq_iff java "").1 h),
              λ h. cc (has_pkg, (eq_iff file.package_name "").1 h),
              rw (has_java, has_pkg) (replace_first-append file.package_name rest java),
            ))
      ]
    ]
