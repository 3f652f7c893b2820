-- ===== src/Tests.antt =====
-- The theorems at concrete inputs: whole numbers stand for doubles, and the regular expressions of a
-- glob are matched by a small matcher.
mod Whole
mod Data
mod Reading
mod Times
mod Selecting
mod Checking
mod Stages
mod Sensitive
mod Spacing
mod Filling
mod Resp
mod Evaluating
mod Xml
mod Running
