-- ===== src/Monitor/Junit/Suites/Laws.antt =====
-- The names of the failed tests are those of the test cases that failed, each once.
use ship_status_dash.Base.{String, ◌≡◌, true, Any, string_eq}
use ship_status_dash.Monitor.Junit.{JunitCase, JunitSuite}
use ship_status_dash.Monitor.Junit.Suites.{failed_case}

-- A test case that failed, with a name that is not empty.
abbrev pub FailsAs : String → JunitCase → Type 0
FailsAs n c = (failed_case c ≡ true) × (c.name ≡ n)

abbrev pub FailsIn : String → JunitSuite → Type 0
FailsIn n s = Any (FailsAs n) s.test_cases
