-- ===== src/Lib.antt =====
-- A verification library for evalresp, the C library that reads SEED RESP files
-- (responses of seismic instruments), selects channels and epochs from them,
-- checks their stages and calculates the response.
--
-- The parts, how they are joined, and their files. Paths are below libsrc/evalresp.
--
--   CString       the C strings and library functions that the readers use
--                 (strtol, isspace, toupper, strstr). A string is a list of codes
--                 before the NUL; characters are ASCII, as in the "C" locale.
--   Status        evalresp_status_enum of public_api.h.
--   RegExp        the matcher of regexp.c as an interface (compile and execute in
--                 one function), and from input.c the code that builds patterns
--                 for it (reg_string_match, is_int, is_real).
--   Reader        input.c: slurp_line, drop_comments_and_blank_lines, read_pref,
--                 read_line, find_line, find_field, number_of_fields and
--                 get_field_to_parse. A reader's state is the rest of the input,
--                 which every function takes and returns.
--                 Reader/Lines, Reader/Fields, Reader/Find, Reader/Print and
--                 Reader/Located prove it.
--   Double        the floating point operations as an interface. The laws that a
--                 proof needs (IsOrdered) are its hypotheses.
--   Channel       public_channels.h and the enumerations of private.h: units,
--                 blockettes, stages and channels.
--   Checked       the result of a function that returns a status and stores a value,
--                 and of one that reads memory that was not written, or writes
--                 behind a buffer.
--   Input         input.c: the readers of blockettes. A reader is an action on the
--                 rest of the input, the channel, the stage and the blockette that
--                 it fills (Input/Action); what it wrote stays written when it
--                 returns with a status. Input/Units is parse_units and read_units;
--                 Input/Filters is read_pz, read_coeff, read_iir_coeff and read_fir; Input/Lists is read_list, read_generic, read_deci
--                 and read_gain; Input/Reference is read_ref, Input/Header
--                 read_channel_header, Input/Data read_channel_data, Input/Collect
--                 collect_channels and Input/Entry evalresp_char_to_channels, which
--                 hands the channels to filter_channels. Input/Reads is about what
--                 they take off the input, Input/Stocked about the stages of a channel, and
--                 Input/Written about blockettes that are written in full. Input/Built
--                 joins blockettes to stages, and Input/Polynomial is
--                 read_polynomial.
--   DateTime      input.c: parse_datetime, timecmp, earlier, in_epoch, to_epoch
--                 and duration. timegm is a parameter, and an int has 32 bits.
--                 DateTime/Order and DateTime/Epoch prove it.
--   UserList      input.c: the lists of names that a user gives (trim, coallesce,
--                 split_on, split_on_space, split_on_comma).
--   Filter        input.c: evalresp_add_sncl_text, evalresp_add_sncl_all,
--                 same_channel, channel_matches and the tests of filter_channels.
--                 Filter/Names is about names and Filter/Product about the lists.
--   Merge         resp_fctns.c: merge_lists, merge_coeffs, check_symmetry and the
--                 loops that merge a run of blockettes.
--   Check         resp_fctns.c: check_channel. Check/Scan is its loop over the
--                 blockettes of a stage, Check/Stage what it does at a stage's end.
--                 Check/Ends, Check/Sound, Check/Fed and Check/Labels prove it.
--   Selection     input.c: filter_channels, which runs check_channel on each
--                 channel, matches it against the filter, and keeps of the
--                 channels of one name the latest epoch or, with a date, the
--                 shortest. It mutates an array of pointers: a beaten channel is
--                 freed and its place set to NULL, which is `none` here.
--                 Selection/Winners is the specification (a list of the winners
--                 without the array) and the rest what follows from it.
--   Calc          calc_fctns.c. Calc/Trans and Calc/Filters are the transfer functions,
--                 Calc/Phase the wrapping of phases, Calc/Respond is
--                 calculate_response, Calc/Normalize and Calc/Sensitivity are
--                 normalize_response. Calc/Fed, Calc/Kinds, Calc/Defined, Calc/Kept
--                 and Calc/Ready are about what the calculation reads: a digital
--                 filter takes its sample interval from the next blockette of the
--                 stage, whatever that is, and the model calls the result
--                 undefined where it is no decimation.
--   Options       public_api.h and evaluation.c: the options and their defaults.
--                 Options/Set is the functions that set them, and the date of a
--                 filter, from strings (evaluation.c and input.c).
--   Frequencies   evaluation.c: validate_freqs, calculate_default_freqs, is_block_55
--                 and restrict_frequency_range. Frequencies/Range and
--                 Frequencies/Limits prove them.
--   Evaluation    evaluation.c: evalresp_channel_to_response, which finds the
--                 frequencies, normalizes the channel and calculates its response,
--                 and evalresp_channels_to_responses. A channel that starts with a
--                 response list (blockette 55) is answered at the frequencies of
--                 the list, or the list is interpolated and restored afterwards:
--                 Evaluation/Interpolate is interpolate_list_blockette of
--                 resp_fctns.c, and Evaluation/Cubic the spline_interpolate (spline.c)
--                 that it calls. The other
--                 modules below Evaluation prove it.
--   StationXml    the conversion of StationXML to RESP, below stationxml2resp.
--                 StationXml is the model of xml_to_dom.h; xml_to_dom.c reads a
--                 document into it: StationXml/Node the values of elements and
--                 attributes, StationXml/Content the contents of a stage, and
--                 StationXml/Document stages to networks. The tree of nodes is an
--                 interface, since the XML library is another project's.
--                 StationXml/Print, with Blockettes and Document, is dom_to_seed.c,
--                 and StationXml/Convert is wrappers.c. Where a status is passed on
--                 as a number, the model has the evalresp status of that number.
--                 StationXml/Mirror describes the document that a model mirrors,
--                 StationXml/Contents and StationXml/Elements are about the contents
--                 of stages, and StationXml/Print/Read joins the printing of a
--                 channel with the reader of its header (Input/Header/Read).
--   Driver        highlevel.c, output.c and file_ops.c: Driver/Search finds the files,
--                 with glob, stat and the environment as an interface, Driver is
--                 evalresp_cwd_to_cwd and what it calls, and Driver/Output turns
--                 responses into text and files. What is written is a value, and a
--                 read through a NULL pointer is `undefined`. Driver/Listed,
--                 Driver/Missing and Driver/Printed prove them. Input/File is the
--                 functions of input.c that read channels from a file.
--   Tests         tests and applications of the theorems, at integers for
--                 doubles.
--
-- Fuel and bounds. Loops over the input run on fuel, which is the length of the
-- input (one more for find_line): each pass consumes a character or ends, so this is
-- enough. The loop over the blockettes of a stage has their number as its fuel, since
-- a pass takes a blockette at least. The loops over the lines of a channel and over the
-- channels run on one more than the length of the input, since a round takes a line off
-- it. A blockette that a truncated input leaves partly written is where the model of
-- read_channel_data ends, with `undefined`. The loops that bring a
-- phase into range in interpolate_list_blockette and evalresp_response_to_char need not
-- end, and the model takes the number of rounds that it looks at as an argument. The loop of
-- file_to_char runs on one more than the bytes of the file, since a round reads a byte or
-- ends. Buffer sizes are written out as in the code.
--
-- Not modelled. Log messages (with evalresp_channel_to_log, which does nothing
-- else), memory management (allocation does not fail), legacy_interface.c and the
-- programs, errors of streams that are open, the spline and XML libraries and the
-- matcher itself, which are copies of other projects. The floating point numbers have no rounding
-- of their own: they are the operations of the interface. A word that overflows the buffer it is
-- read into is `undefined`, and so is a negative count of an array, with which the code goes on as
-- with an empty one. What parse_datetime reads behind its buffer, for a string of 22 bytes or more
-- that lacks a separator, is a NUL in the model.
pub mod Prelude
pub mod CString
pub mod Status
pub mod Checked
pub mod RegExp
pub mod Reader
pub mod Double
pub mod Channel
pub mod DateTime
pub mod UserList
pub mod Filter
pub mod Merge
pub mod Check
pub mod Selection
pub mod Options
pub mod Input
pub mod Calc
pub mod Frequencies
pub mod Evaluation
pub mod StationXml
pub mod Driver
mod Tests
