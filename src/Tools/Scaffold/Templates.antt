-- ===== src/Tools/Scaffold/Templates.antt =====
-- tools/scaffold/templates.py: the files of a new project. A path is the list of its parts.
use kanna_pa.Prelude.{
  String, ◌<>◌, Bool, true, false, Option, none, some, List, [], ◌∷◌, ◌=ₛ◌, if◌then◌else◌,
}

pub record ScaffoldFile : Type 0 where
  pub path : List String
  pub content : String

abbrev at : List String → String → ScaffoldFile
at path content = record { path = path; content = content }

abbrev source_body : Bool → String → String
source_body true name =
    "#include <iostream>\n\nint main() {\n    std::cout << \"Hello from " <> name
    <> "!\\n\";\n    return 0;\n}\n"
source_body false name =
    "#include <stdio.h>\n\nint main(void) {\n    printf(\"Hello from " <> name
    <> "!\\n\");\n    return 0;\n}\n"

abbrev makefile : (compiler default std ext name : String) → String
makefile compiler default std ext name =
    compiler <> " ?= " <> default <> "\nCFLAGS ?= -Wall -Wextra " <> std <> "\n\nTARGET = " <> name
    <> "\nSRC = src/main." <> ext <> "\n\n$(TARGET): $(SRC)\n\t$(" <> compiler
    <> ") $(CFLAGS) -o $(TARGET) $(SRC)\n\n"
    <> "run: $(TARGET)\n\t./$(TARGET)\n\nclean:\n\trm -f $(TARGET)\n\n.PHONY: run clean\n"

-- `_c_family`
abbrev c_family : Bool → String → List ScaffoldFile
c_family cpp name =
    let ext = if cpp then "cpp" else "c" in
    let build =
      if cpp
      then makefile "CXX" "g++" "-std=c++17" ext name
      else makefile "CC" "gcc" "-std=c11" ext name in
    at ("Makefile" ∷ []) build
    ∷ at ("src" ∷ ("main." <> ext) ∷ []) (source_body cpp name)
    ∷ at (".gitignore" ∷ []) ("/" <> name <> "\n*.o\n")
    ∷ at ("README.md" ∷ [])
        ("# " <> name <> "\n\nBuild: `make`\nRun: `make run`\nClean: `make clean`\n")
    ∷ []

abbrev java_project : String → List ScaffoldFile
java_project name =
    at ("src" ∷ "Main.java" ∷ []) (
      "public class Main {\n    public static void main(String[] args) {\n"
      <> "        System.out.println(\"Hello from " <> name <> "!\");\n    }\n}\n")
    ∷ at ("README.md" ∷ []) (
        "# " <> name <> "\n\nNo Maven/Gradle assumed — built directly with `javac`/`java`.\n\n"
        <> "Build: `javac -d build src/Main.java`\nRun:   `java -cp build Main`\n")
    ∷ at (".gitignore" ∷ []) "/build/\n"
    ∷ []

-- `TEMPLATES.get(language)`, with its text of `NEXT_STEPS`
unfoldable pub template_for : String → Option ((String → List ScaffoldFile) × String)
template_for language =
    if language =ₛ "c"
    then some (c_family false, "cd into the project and run: make && make run")
    else if language =ₛ "cpp"
    then some (c_family true, "cd into the project and run: make && make run")
    else if language =ₛ "java"
    then some (
      java_project,
      "cd into the project and run: javac -d build src/Main.java && java -cp build Main",
    )
    else none
